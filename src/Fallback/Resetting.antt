-- ===== src/Fallback/Resetting.antt =====
-- store/fallback.go: Reset reaches both stores.
use rateshield.Prelude.{◌≡◌, refl, ◌∙◌, Bool, Bytes, bytes_eq_refl, none, some}
use rateshield.Go.{Error, Context}
use rateshield.Go.Float.{Float64}
use rateshield.Store.{Store}
use rateshield.Memory.{Memory, find}
use rateshield.Memory
use rateshield.Memory.Shards.{find-remove}
use rateshield.Memory.Backend.{memory_store}
use rateshield.Fallback.{FallbackState, reset, handle_primary_error}
use rateshield.Fallback.Failover.{two_tier}

module _ {F : Type 0} ⦃fl : Float64 F⦄ where
  -- Over any primary and a memory store as the secondary, Reset resets the primary and forgets the key
  -- in the secondary also if the primary fails, leaves the breaker as it is, and returns the
  -- primary's error, which it hands to the callback.
  pub reset_reaches_both_stores :
      (p : Store F) (callback : Bool) (ctx : Context) (key : Bytes)
      (st : FallbackState (two_tier p (memory_store fl) callback)) {e : Error} {p' : p.S}
      → p.reset ctx key st.primary ≡ (some e, p')
      → let (res, st') = reset (two_tier p (memory_store fl) callback) ctx key st in
        (res ≡ some e)
        × (st'.primary ≡ p')
        × (find key st'.secondary ≡ none)
        × (st'.breaker ≡ st.breaker)
        × (st'.reported ≡ handle_primary_error callback e st.reported)
  unfolding reset Memory.reset
  reset_reaches_both_stores p callback ctx key st failed =
      rw failed (refl, refl, find-remove key key st.secondary ∙ rw (bytes_eq_refl key), refl, refl)
