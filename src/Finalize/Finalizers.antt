-- ===== src/Finalize/Finalizers.antt =====
-- The three finalizers as one.
use Prim.Native.String.{String}
use decisionproof.Base.{ℕ, ℤ, ◌≡◌, refl, some, List, [], ◌∷◌, nat_eq}
use decisionproof.Runs.{Run, Status, Condition, status_is, lease_token_is}
use decisionproof.World.{World, Action}
use decisionproof.Finalize.{
  FinalizeError, do_2phase_finalize, result_updates, error_updates, finalize_success,
  finalize_failure, finalize_timeout,
}

-- The three callers of the two-phase finalize, with their arguments.
pub data Finalizer : Type 0 where
  success : (lease : ℕ) (cost : ℤ) (bucket key : String) (sha256 : ℕ) → Finalizer
  failure : (lease : ℕ) (fee : ℤ) (reason_code detail : String) → Finalizer
  timeout : (fee : ℤ) → Finalizer

abbrev pub run_finalizer : Finalizer → ℕ → ℕ → (token now : ℕ) → Action FinalizeError Unit
run_finalizer (success lease cost bucket key sha256) run_id tenant token now =
    finalize_success run_id tenant lease cost bucket key sha256 token now
run_finalizer (failure lease fee reason_code detail) run_id tenant token now =
    finalize_failure run_id tenant lease fee reason_code detail token now
run_finalizer (timeout fee) run_id tenant token now = finalize_timeout run_id tenant fee token now

abbrev pub requested : Finalizer → ℤ
requested (success _ cost _ _ _) = cost
requested (failure _ fee _ _) = fee
requested (timeout fee) = fee

abbrev pub final_status : Finalizer → Status
final_status (success _ _ _ _ _) = Status.completed
final_status _ = Status.failed

abbrev pub conditions : Finalizer → List Condition
conditions (success lease _ _ _ _) = lease_token_is (some lease) ∷ []
conditions (failure lease _ _ _) = lease_token_is (some lease) ∷ []
conditions (timeout _) = status_is Status.processing ∷ []

abbrev pub extra : Finalizer → Run → Run
extra (success _ _ bucket key sha256) = result_updates bucket key sha256
extra (failure _ _ reason_code detail) = error_updates reason_code detail
extra (timeout _) = error_updates "WORKER_TIMEOUT" "Worker lease expired, run terminated by Reaper"

pub run_finalizer-eq :
    (f : Finalizer) (run_id tenant token now : ℕ) (w : World)
    → run_finalizer f run_id tenant token now w
      ≡ do_2phase_finalize run_id tenant
          (requested f)
          (final_status f)
          (conditions f)
          (extra f)
          token
          now
          w
unfolding finalize_success finalize_failure finalize_timeout
run_finalizer-eq (success lease cost bucket key sha256) run_id tenant token now w = refl
run_finalizer-eq (failure lease fee reason_code detail) run_id tenant token now w = refl
run_finalizer-eq (timeout fee) run_id tenant token now w = refl

pub extra-tenant : (f : Finalizer) (r : Run) → (extra f r).tenant_id ≡ r.tenant_id
extra-tenant (success lease cost bucket key sha256) r = refl
extra-tenant (failure lease fee reason_code detail) r = refl
extra-tenant (timeout fee) r = refl
