-- ===== src/Platform/Control/Migration/Spares.antt =====
-- A migration never drops the source before the target has restored the copy.
use eminidatabase.Base.{ℕ, ◌+◌, ◌≡◌, refl, ◌∙◌, Option, none, some, List, [], ◌∷◌, ◌++◌, arith}
use eminidatabase.Base.Action.{WhenReturned, ◌>>=◌, ◌>>◌, pure, writes}
use eminidatabase.Base.Preserves.{Keeps}
use eminidatabase.Base.Keeps.{
  keeps_rules, Keeps-pure, Keeps-raise, Keeps-writes, Keeps-bind, Keeps-bind_when, Does, Does-any,
  Does-bind,
}
use eminidatabase.Platform.Jobs.{Payload}
use eminidatabase.Platform.Placement.{Node, Fleet, Database}
use eminidatabase.Platform.Control.{
  Control, Tx, Error, runtime_error, AgentCall, StorageKey, get_database,
}
use eminidatabase.Platform.Control.Agent.{
  Agents, Answer, answered, refused, unreachable, Body, from_answer, log_call, reach, call_agent,
  get_primary_node,
}
use eminidatabase.Platform.Control.Orchestrator.{World}
use eminidatabase.Platform.Control.Migration.{
  Route, migration_key, copy_to_target, cut_over, clean_up, migrate_along, target_of, migrate_from,
  migrate_to, execute_migrate_database,
}

abbrev pub drop_of : AgentCall → ℕ
drop_of (AgentCall.drop _ _) = 1
drop_of _ = 0

-- How many databases the agents were asked to drop.
abbrev pub drops : List (ℕ × AgentCall) → ℕ
drops [] = 0
drops ((_, c) ∷ cs) = drop_of c + drops cs

-- The agent does not answer the request to restore a copy.
abbrev pub NoRestore : Agents → ℕ → Type 0
NoRestore agents k =
    (database : List ℕ) (key : StorageKey) (role : List ℕ) (password : ℕ) (body : Body)
    → agents k (AgentCall.restore database key role password) ≡ answered body
    → ⊥

-- Where the databases are is as it was, and none was dropped since.
pub record IsSpared (fleet : Fleet) (n : ℕ) (s : Control) : Type 0 where
  pub same : s.fleet ≡ fleet
  pub none_dropped : drops s.sent ≡ n

drops-append :
    (cs : List (ℕ × AgentCall)) (k : ℕ) (c : AgentCall)
    → drop_of c ≡ 0
    → drops (cs ++ ((k, c) ∷ [])) ≡ drops cs
drops-append [] k c h = omega (arith, h)
drops-append ((j, d) ∷ cs) k c h = omega (arith, drops-append cs k c h)

module _ {fleet : Fleet} {n : ℕ} where
  call_agent-Keeps :
      (agents : Agents) (k : ℕ) (node : Node) (c : AgentCall)
      → drop_of c ≡ 0
      → Keeps (IsSpared fleet n) (call_agent agents k node c)
  unfolding call_agent
  call_agent-Keeps agents k node c h = reach-Keeps node.ip_address
    where
      answer-Keeps : (a : Answer) → Keeps (IsSpared fleet n) (from_answer a)
      answer-Keeps (answered body) = Keeps-pure body
      answer-Keeps (refused code) = Keeps-raise _
      answer-Keeps unreachable = Keeps-raise _

      log-Keeps : Keeps (IsSpared fleet n) (writes {E = Error} (log_call k c))
      log-Keeps = Keeps-writes _ (λ s spared. record {
        same = spared.same;
        none_dropped = drops-append s.sent k c h ∙ spared.none_dropped;
      })

      reach-Keeps : (ip : Option ℕ) → Keeps (IsSpared fleet n) (reach agents k c ip)
      reach-Keeps none = Keeps-raise _
      reach-Keeps (some _) = Keeps-bind _ _ log-Keeps (λ _. answer-Keeps (agents k c))

  get_primary_node-Keeps : (c : Option ℕ) → Keeps (IsSpared fleet n) (get_primary_node c)
  unfolding get_primary_node
  get_primary_node-Keeps c = search keeps_rules depth 10

  get_database-Keeps : (k : ℕ) → Keeps (IsSpared fleet n) (get_database runtime_error k)
  get_database-Keeps k = search keeps_rules depth 10

-- The copy does not get as far as the cut-over.
restore-Never :
    (agents : Agents) (k : ℕ) (node : Node) (database : List ℕ) (key : StorageKey) (role : List ℕ)
    (password : ℕ) (s : Control)
    → NoRestore agents k
    → WhenReturned
        (λ _ _. ⊥)
        (call_agent agents k node (AgentCall.restore database key role password) s)
unfolding call_agent
restore-Never agents k node database key role password s silent = reached node.ip_address
  where
    call : AgentCall
    call = AgentCall.restore database key role password

    answer :
        (a : Answer) (t : Control) → agents k call ≡ a → WhenReturned (λ _ _. ⊥) (from_answer a t)
    answer (answered body) t e = silent database key role password body e
    answer (refused code) t e = tt
    answer unreachable t e = tt

    reached : (ip : Option ℕ) → WhenReturned (λ _ _. ⊥) (reach agents k call ip s)
    reached none = tt
    reached (some _) = answer (agents k call) _ refl

copy_to_target-Never :
    (w : World) (r : Route)
    → NoRestore w.agents r.target_id
    → Does (λ _ _ _. ⊥) (copy_to_target w r)
copy_to_target-Never w r silent =
    Does-bind (λ _ _ _ _. ⊥) _ _
      (Does-any (
        call_agent w.agents r.source_id r.source
          (AgentCall.quiesce r.database.physical_name r.credential.role_name)))
      (λ _.
        Does-bind (λ _ _ _ _. ⊥) _ _
          (Does-any (
            call_agent w.agents r.source_id r.source
              (AgentCall.back_up r.database.physical_name (migration_key w r))))
          (λ _.
            Does-bind (λ _ _ _ _. Unit)
              (call_agent w.agents r.target_id r.target (
                AgentCall.restore r.database.physical_name (migration_key w r)
                  r.credential.role_name (w.decrypt_secret r.credential.encrypted_password)))
              (λ _. pure tt)
              (record { at = λ s. restore-Never w.agents r.target_id r.target _ _ _ _ s silent })
              (λ body. Does-any _) (λ s _ t _ u never _. never))
          (λ s _ t _ u _ never. never))
      (λ s _ t _ u _ never. never)

module _ {fleet : Fleet} {n : ℕ} where
  copy_to_target-Keeps : (w : World) (r : Route) → Keeps (IsSpared fleet n) (copy_to_target w r)
  copy_to_target-Keeps w r =
      Keeps-bind _ _ (call_agent-Keeps w.agents r.source_id r.source _ refl) (λ _.
        Keeps-bind _ _ (call_agent-Keeps w.agents r.source_id r.source _ refl) (λ _.
          Keeps-bind _ _ (call_agent-Keeps w.agents r.target_id r.target _ refl)
            (λ _. Keeps-pure tt)))

  migrate_along-Keeps :
      (w : World) (job_id : ℕ) (r : Route)
      → NoRestore w.agents r.target_id
      → Keeps (IsSpared fleet n) (migrate_along w job_id r)
  unfolding migrate_along
  migrate_along-Keeps w job_id r silent =
      Keeps-bind_when (λ _ _. ⊥) (copy_to_target w r) (λ _. cut_over r >> clean_up w job_id r)
        (copy_to_target-Keeps w r) (λ s h. (copy_to_target-Never w r silent).at s)
        (λ _ t never h. elim never [ ])

  migrate_from-Keeps :
      (w : World) (job_id : ℕ) (job : Payload) (database : Database) (k : ℕ) (target : Node)
      (source : ℕ × Node)
      → NoRestore w.agents k
      → Keeps (IsSpared fleet n) (migrate_from w job_id job database k target source)
  migrate_from-Keeps w job_id job database k target source silent =
      search (keeps_rules, migrate_along-Keeps) depth 14

  migrate_to-Keeps :
      (w : World) (job_id : ℕ) (job : Payload) (database : Database) (k : ℕ)
      → NoRestore w.agents k
      → Keeps (IsSpared fleet n) (migrate_to w job_id job database k)
  migrate_to-Keeps w job_id job database k silent =
      search (keeps_rules, get_primary_node-Keeps, migrate_from-Keeps) depth 16

  target_of-then :
      (k : ℕ) (job : Payload) (f : ℕ → Tx (Unit {0}))
      → job.object ≡ some k
      → Keeps (IsSpared fleet n) (f k)
      → Keeps (IsSpared fleet n) (target_of job >>= f)
  target_of-then k job f e kf = rw e kf

  execute-Keeps :
      (w : World) (job_id k : ℕ) (job : Payload)
      → job.object ≡ some k
      → NoRestore w.agents k
      → Keeps (IsSpared fleet n) (execute_migrate_database w job_id job)
  unfolding execute_migrate_database
  execute-Keeps w job_id k job e silent =
      Keeps-bind _ _ (get_database-Keeps job.subject) (λ database.
        target_of-then k job (migrate_to w job_id job database) e
          (migrate_to-Keeps w job_id job database k silent))

-- If the agent on the target node of a migration job answers no request to restore a copy, be it that
-- it refuses, cannot be reached or has no address, then however the job ends, the fleet, and with it
-- the database's row and where it points to, is as it was, and no agent has been asked to drop a
-- database. So the source is dropped only after the target has answered the restore.
pub execute_migrate_database-Spares :
    (w : World) (job_id k : ℕ) (job : Payload) (s : Control)
    → job.object ≡ some k
    → NoRestore w.agents k
    → let t = (execute_migrate_database w job_id job s).1 in
      (t.fleet ≡ s.fleet) × (drops t.sent ≡ drops s.sent)
execute_migrate_database-Spares w job_id k job s e silent =
    let spared =
      (execute-Keeps w job_id k job e silent).after s
        (record { same = refl; none_dropped = refl }) in
    (spared.same, spared.none_dropped)
