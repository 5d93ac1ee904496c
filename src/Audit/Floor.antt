-- ===== src/Audit/Floor.antt =====
-- Which records the floor of LOG_LEVEL lets through.
use atrium_core.Base.{
  ◌≡◌, refl, true, false, Bool, [], ◌∷◌, ◌++◌, List, Text, lebℤ, ◌↔◌, arith, ◌≢◌, ap, length,
  length-append, Bool-cases, inl, inr,
}
use mathlib.Core.List.{append-nil}
use atrium_core.Crypto.{Crypto}
use atrium_core.Slog.{Level, Attr, log_attrs}
use atrium_core.Http.{Request, Out, emit}
use atrium_core.Audit.{new_logger, log, level_audit}

append-eq_self {ℓ} : {A : Type ℓ} (xs ys : List A) → xs ++ ys ≡ xs → ys ≡ []
append-eq_self xs [] h = refl
append-eq_self xs (y ∷ ys) h = absurd (omega (arith, ap length h, length-append xs (y ∷ ys)))

module _ (crypto : Crypto) (floor : Level) (salt : Text) (pseudonymize : Bool) where
  log_attrs-nil :
      (event : Text) (attrs : List Attr)
      → lebℤ floor level_audit ≡ false
      → log_attrs (new_logger crypto floor salt pseudonymize) level_audit event attrs ≡ []
  unfolding log_attrs new_logger
  log_attrs-nil event attrs h = ground arith

  log_attrs-cons :
      (event : Text) (attrs : List Attr)
      → lebℤ floor level_audit ≡ true
      → log_attrs (new_logger crypto floor salt pseudonymize) level_audit event attrs ≢ []
  unfolding log_attrs new_logger
  log_attrs-cons event attrs h = ground arith

  -- An audit record is dropped exactly when the floor lies above the audit level, and then the log
  -- stays as it was.
  pub log-audit_dropped_iff :
      (r : Request) (event : Text) (extra : List Attr) (w : Out)
      → (log (new_logger crypto floor salt pseudonymize) r level_audit event extra w ≡ w)
        ↔ (lebℤ floor level_audit ≡ false)
  unfolding log emit
  log-audit_dropped_iff r event extra w = (
    dropped,
    λ h. ap (λ lines. record w { log = lines }) (rw (log_attrs-nil event _ h) (append-nil w.log)),
  )
    where
      dropped :
          log (new_logger crypto floor salt pseudonymize) r level_audit event extra w ≡ w
          → lebℤ floor level_audit ≡ false
      dropped e = elim (Bool-cases (lebℤ floor level_audit)) [
        | inr h ↦ h
        | inl h ↦
            absurd (log_attrs-cons event _ h (append-eq_self w.log _ (ap (λ (o : Out). o.log) e)))
      ]
