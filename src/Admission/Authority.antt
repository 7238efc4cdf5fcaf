-- ===== src/Admission/Authority.antt =====
-- The single writer of the simulated admission.
use qiven_runtime.Base.{◌≡◌, ap, arith, Bool, true, not, List, [], ◌∷◌, nat_beq, all}
use qiven_runtime.Admission.{
  permission_denied, AdmissionRequest, AdmissionGrant, NullExecutionAuthority,
  null_request_admission, null_release, null_grant_still_valid,
}

-- What the holders of a port can ask.
pub data Use : Type 0 where
  requests : AdmissionRequest → Use
  releases : AdmissionGrant → Use

unfoldable pub after_use : NullExecutionAuthority → Use → NullExecutionAuthority
after_use s (requests request) = (null_request_admission s request).1
after_use s (releases grant) = null_release s grant

unfoldable pub after_uses : NullExecutionAuthority → List Use → NullExecutionAuthority
after_uses s [] = s
after_uses s (u ∷ rest) = after_uses (after_use s u) rest

-- The use does not release the epoch of the grant.
abbrev pub spares : AdmissionGrant → Use → Bool
spares g (requests request) = true
spares g (releases other) = not (nat_beq other.lease_epoch g.lease_epoch)

denied_while_held :
    (s : NullExecutionAuthority) (g : AdmissionGrant) (request : AdmissionRequest)
    → null_grant_still_valid s g ≡ true
    → null_request_admission s request ≡ (permission_denied, s)
unfolding null_grant_still_valid null_request_admission
denied_while_held s g request held = ground arith

after_use-valid :
    (s : NullExecutionAuthority) (g : AdmissionGrant) (u : Use)
    → spares g u ≡ true
    → null_grant_still_valid s g ≡ true
    → null_grant_still_valid (after_use s u) g ≡ true
unfolding after_use null_release null_grant_still_valid null_request_admission
after_use-valid s g (requests request) free held = ground (arith, held)
after_use-valid s g (releases other) free held = ground (arith, held)

-- While one grant is held, whatever else is asked of the authority or released, as long as no grant
-- of its epoch is released, it stays valid and each further request is denied.
pub single_writer :
    (s : NullExecutionAuthority) (g : AdmissionGrant) (uses : List Use) (request : AdmissionRequest)
    → null_grant_still_valid s g ≡ true
    → all (spares g) uses ≡ true
    → (null_grant_still_valid (after_uses s uses) g ≡ true)
      × ((null_request_admission (after_uses s uses) request).0 ≡ permission_denied)
unfolding after_uses
single_writer s g [] request held free = (held, ap (λ r. r.0) (denied_while_held s g request held))
single_writer s g (u ∷ rest) request held free =
    single_writer (after_use s u) g rest request (after_use-valid s g u (ground (arith, free)) held)
      (ground (arith, free))
