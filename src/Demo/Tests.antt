-- ===== src/Demo/Tests.antt =====
-- A run of one actor, polled by another and after its retention.
use decisionproof.Base.{ℕ, ◌≡◌, refl, arith, true, some, List, [], ◌∷◌, nat_eq, if◌then◌else◌}
use decisionproof.Demo.{
  DemoPlan, check_rpm, Draft, DemoStore, question, receipt, result, problem, create_demo_run,
  verify_rapid_auth, bearer,
}
use decisionproof.Demo.Polls.{get_demo_run, poll, maybe_enforce_zombie}
use decisionproof.Demo.Keeps.{DemoCall, create, get, serve_all}
use decisionproof.Demo.Expiry.{submitted_run, paced}

abbrev draft : Draft
draft = record {
  body_bytes = 60;
  parsed = question 4 12;
  run_id = 5;
  is_uploaded = true;
  stored_at = 100;
}

abbrev empty_store : DemoStore
empty_store = record {
  runs = [];
  tombstones = [];
  post_rates = [];
  get_rates = [];
  active = [];
  poll_counts = [];
  poll_last = [];
}

abbrev calls : List (ℕ × DemoCall)
calls = (100, create DemoPlan.basic 1 draft) ∷ (200, get DemoPlan.pro 2 5 true) ∷ []

submitted :
    (create_demo_run DemoPlan.basic 1 draft 100 empty_store).0 ≡ receipt 5 3000 DemoPlan.basic
unfolding create_demo_run check_rpm
submitted = refl

-- Another actor's poll has the result, the owner's poll a week later has 404.
polled :
    ((get_demo_run DemoPlan.pro 3 5 true 201 (serve_all calls empty_store)).0
      ≡ result 5 100 DemoPlan.basic true)
    × ((get_demo_run DemoPlan.basic 1 5 true 604900 (serve_all calls empty_store)).0 ≡ problem 404)
unfolding create_demo_run check_rpm get_demo_run poll maybe_enforce_zombie
polled = (refl, refl)

refused : verify_rapid_auth (some 3) (some 4) 3 (bearer 5) ≡ some 401
unfolding verify_rapid_auth
refused = refl

-- A poll between the end of the retention and the end of the key: 410 for the owner, then 404.
abbrev late_draft : Draft
late_draft = record draft { stored_at = 103 }

abbrev late_store : DemoStore
late_store = (create_demo_run DemoPlan.basic 1 late_draft 100 empty_store).1

gone :
    ((get_demo_run DemoPlan.basic 1 5 true 604901 late_store).0 ≡ problem 410)
    × ((get_demo_run DemoPlan.basic 2 5 true 604901 late_store).0 ≡ problem 404)
    × ((get_demo_run DemoPlan.basic 1 5 true 604903 late_store).0 ≡ problem 404)
unfolding create_demo_run check_rpm get_demo_run
gone = (refl, refl, refl)

abbrev later : List (ℕ × DemoCall)
later = (200, get DemoPlan.pro 2 5 true) ∷ []

late_submitted :
    (create_demo_run DemoPlan.basic 1 late_draft 100 empty_store).0 ≡ receipt 5 3000 DemoPlan.basic
unfolding create_demo_run check_rpm
late_submitted = refl

submitted_run_example :
    let s' = serve_all later (create_demo_run DemoPlan.basic 1 late_draft 100 empty_store).1 in
    (get_demo_run DemoPlan.pro 3 5 true 201 s').0 ≡ (
      if (check_rpm 3 96 201 s'.get_rates).0
      then problem 429
      else paced DemoPlan.pro 3 5 201 s' (result 5 100 DemoPlan.basic true))
submitted_run_example =
    submitted_run DemoPlan.basic DemoPlan.pro 1 3 late_draft 100 201 3000 true empty_store later
      refl late_submitted (omega arith, tt)
