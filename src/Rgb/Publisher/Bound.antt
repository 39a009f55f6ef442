-- ===== src/Rgb/Publisher/Bound.antt =====
-- rgb/publisher.py: the binding of a session that is there.
use pages_to_rgb.Prelude.{String, ◌≡◌, refl, some, find?, str_eq, ◌==◌, Option-cases, inl, inr}
use pages_to_rgb.Common.Exec.{Result, ok, err, Error}
use pages_to_rgb.Rgb.Delivery.Binding.{SessionBinding}
use pages_to_rgb.Rgb.Publisher.{internal_binding, join_device, bound_or_missing}
use pages_to_rgb.Db.{Db, Session, Device, Gateway}

-- What holds of an error that changes nothing, and of each binding of the session, holds of the call.
pub internal_binding_rule :
    (Q : Result SessionBinding × Db → Type 0) (public_id : String) (db : Db) {s : Session}
    → find? (λ (r : Session). str_eq r.public_id public_id) db.sessions ≡ some s
    → ((e : Error) → Q (err e, db))
    → ((b : SessionBinding) → b.session ≡ s → Q (ok b, db))
    → Q (internal_binding public_id db)
unfolding internal_binding join_device bound_or_missing
internal_binding_rule Q public_id db {s} found missing bound =
    rw found (elim (Option-cases (find? (λ (d : Device). s.device_id == d.id) db.devices)) [
      | inl e ↦ rw e (missing _)
      | inr (d, e) ↦
          rw e (elim (Option-cases (find? (λ (g : Gateway). s.gateway_id == g.id) db.gateways)) [
            | inl f ↦ rw f (missing _)
            | inr (g, f) ↦ rw f (bound _ refl)
          ])
    ])
