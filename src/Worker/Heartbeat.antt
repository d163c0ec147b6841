-- ===== src/Worker/Heartbeat.antt =====
-- The heartbeat, in step with the row while the worker holds it.
use decisionproof.Base.{
  ℕ, suc, ◌+◌, ◌≡◌, ◌≢◌, refl, ◌∙◌, ap, true, Option, some, List, [], ◌∷◌, length, arith, lookup,
  insert, lookup-insert, lookup-insert_self, nat_eq, eqb_option_iff,
}
use decisionproof.Runs.{Run, Status, status_is, lease_token_is, all_hold, bump, is_status}
use decisionproof.Runs.Locking.{update-Matched}
use decisionproof.World.{World}
use decisionproof.Finalize.Claim.{processing_iff}
use decisionproof.Worker.{Job, extend_lease, send_heartbeat, send_heartbeats}

-- The row that the worker of a job holds.
pub record IsHeld (job : Job) (row : Run) : Type 0 where
  pub owned : row.tenant_id ≡ job.tenant_id
  pub running : row.status ≡ Status.processing
  pub leased : row.lease_token ≡ some job.lease_token

-- A row after some ticks: only its version, the end of its lease and its time of update have changed.
abbrev pub extended_row : ℕ → Option ℕ → ℕ → Run → Run
extended_row ticks expires updated row = record row {
  version = row.version + ticks;
  lease_expires_at = expires;
  updated_at = updated;
}

-- The heartbeat's version and the world, after `ticks` ticks from `w`.
pub record IsExtended (job : Job) (ticks : ℕ) (row : Run) (w : World) (state : ℕ × World)
    : Type 0 where
  pub expires : Option ℕ
  pub updated : ℕ
  pub in_step : state.0 ≡ row.version + ticks
  pub at : lookup job.run_id state.1.runs ≡ some (extended_row ticks expires updated row)
  pub others : (id : ℕ) → id ≢ job.run_id → lookup id state.1.runs ≡ lookup id w.runs
  pub money : state.1.redis ≡ w.redis
  pub usage : state.1.usage ≡ w.usage
  pub dialect : state.1.is_sqlite ≡ w.is_sqlite

module _ (job : Job) where
  abbrev pub ticked_row : ℕ → Run → Run
  ticked_row now row = bump row.version now (extend_lease (now + job.lease_ttl_sec)) row

  tick :
      (now : ℕ) (row : Run) (w : World)
      → lookup job.run_id w.runs ≡ some row
      → IsHeld job row
      → send_heartbeat job now (row.version, w)
        ≡ (row.version + 1, record w { runs = insert job.run_id (ticked_row now row) w.runs })
  unfolding send_heartbeat
  tick now row w at held = rw (
      update-Matched job.run_id job.tenant_id row.version (extend_lease (now + job.lease_ttl_sec))
        (lease_token_is (some job.lease_token) ∷ status_is Status.processing ∷ []) now w.runs row
        (
          at,
          held.owned,
          refl,
          conditions row held.leased ((processing_iff row.status).1 held.running),
        ))
    where
      conditions :
          (row : Run)
          → row.lease_token ≡ some job.lease_token
          → is_status row.status Status.processing ≡ true
          → all_hold (lease_token_is (some job.lease_token) ∷ status_is Status.processing ∷ []) row
            ≡ true
      conditions row leased running =
          ground (
            arith,
            leased,
            running,
            (eqb_option_iff row.lease_token (some job.lease_token)).1 leased,
          )

-- While the worker holds its run and no one else writes it, every tick of the heartbeat succeeds: the
-- heartbeat's version stays the row's version, one up for each tick, and nothing but the version, the
-- end of the lease and the time of update of that one row changes in the whole state.
pub heartbeats_extend :
    (job : Job) (ticks : List ℕ) (row : Run) (w : World)
    → lookup job.run_id w.runs ≡ some row
    → IsHeld job row
    → IsExtended job (length ticks) row w (send_heartbeats job ticks (row.version, w))
unfolding send_heartbeats
heartbeats_extend job [] row w at held = record {
  expires = row.lease_expires_at;
  updated = row.updated_at;
  in_step = omega arith;
  at = at ∙ ap (λ (v : ℕ). some (record row { version = v })) (omega arith);
  others = λ id apart. refl;
  money = refl;
  usage = refl;
  dialect = refl;
}
heartbeats_extend job (now ∷ ticks) row w at held =
    let row1 = ticked_row job now row in
    let w1 = record w { runs = insert job.run_id row1 w.runs } in
    let p : IsExtended job (length ticks) row1 w1 (send_heartbeats job ticks (row1.version, w1)) =
      heartbeats_extend job ticks row1 w1 (lookup-insert_self job.run_id row1 w.runs)
        (record { owned = held.owned; running = held.running; leased = held.leased }) in
    let more : row.version + 1 + length ticks ≡ row.version + suc (length ticks) = omega arith in
    rw (tick job now row w at held) (record {
      expires = p.expires;
      updated = p.updated;
      in_step = p.in_step ∙ more;
      at =
          p.at
          ∙ ap
              (λ (v : ℕ).
                some (record row {
                  version = v;
                  lease_expires_at = p.expires;
                  updated_at = p.updated;
                }))
              more;
      others = λ id apart.
          p.others id apart ∙ ground (arith, apart, lookup-insert job.run_id id row1 w.runs);
      money = p.money;
      usage = p.usage;
      dialect = p.dialect;
    })
