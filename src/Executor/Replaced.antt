-- ===== src/Executor/Replaced.antt =====
-- The submissions of adoption_executor.py under a lease, and the same with other code for the call.
use proxmox_cloudstack_sync.Base.{
  String, ◌≡◌, refl, ap, sym, ◌∙◌, subst, Option, none, some, inl, inr,
}
use proxmox_cloudstack_sync.Json.{Json}
use proxmox_cloudstack_sync.Outcome.{Outcome, Outcome-cases, object_deleted}
use proxmox_cloudstack_sync.Store.{Execution}
use proxmox_cloudstack_sync.Session.{World, Exec, lift, ◌>>=◌}
use proxmox_cloudstack_sync.Session.Returns.{Returns}
use proxmox_cloudstack_sync.Registry.Validate.{Python}
use proxmox_cloudstack_sync.Executor.Params.{Params, deploy_params}
use proxmox_cloudstack_sync.Executor.Client.{Client, caught, handle_caught}
use proxmox_cloudstack_sync.Executor.Commit.{refreshed, commit_public}
use proxmox_cloudstack_sync.Executor.Submit.{
  Submission, submission_failed, submission_settled, submission_answered, submission_target,
  guarded_call, submit_loaded, submit, deploy_call, start_call, start_host,
}
use proxmox_cloudstack_sync.Executor.Agree.{
  HasLease, bind-agree, known-agree, first-agree, leased-agree, refreshed-IsOf, OnSome,
  Returns-caught,
}

-- Other code for the two submissions, which does the same wherever this worker's lease on the
-- execution is in force.
pub record IsSameUnderLease (id lease : String) (c : Client) (deploy : Params → Exec Json)
    (start_vm : String → Json → Exec Json) : Type 0 where
  pub deploys :
      (p : Params) (w : World) → HasLease id lease w → c.deploy_virtual_machine p w ≡ deploy p w
  pub starts :
      (vm : String) (host : Json) (w : World)
      → HasLease id lease w
      → c.start_virtual_machine vm host w ≡ start_vm vm host w

-- a submission, and the same with another call
module _ (write_guard : Exec (Unit {0})) (id lease : String) (s : Submission)
    (call : Execution → Exec Json)
    (same : (e : Execution) (w : World) → HasLease id lease w → s.call e w ≡ call e w) where
  abbrev other : Submission
  other = record s { call = call }

  target-agree :
      (e : Execution) (job : Option String)
      → submission_target write_guard lease s e job
        ≡ submission_target write_guard lease other e job
  unfolding submission_target
  target-agree e none = refl
  target-agree e (some job) = refl

  settled-agree :
      (e : Execution) (r : Option Json) (w : World)
      → submission_settled write_guard lease s e r w
        ≡ submission_settled write_guard lease other e r w
  unfolding submission_settled submission_failed submission_answered
  settled-agree e none w = refl
  settled-agree e (some response) w = bind-agree _ _ _ w λ _ u.
      bind-agree _ _ _ u
        λ job v. ap (λ target. commit_public write_guard lease e target v) (target-agree e job)

  guarded_call-agree :
      (e : Execution) (w : World)
      → e.id ≡ id
      → guarded_call write_guard lease s e w ≡ guarded_call write_guard lease other e w
  unfolding guarded_call
  guarded_call-agree e w h =
      leased-agree e.id lease _ _ (λ v held. same e v (subst (λ i. HasLease i lease v) h held)) w

  caught-agree :
      (e : Execution) (w : World)
      → e.id ≡ id
      → caught (guarded_call write_guard lease s e) w
        ≡ caught (guarded_call write_guard lease other e) w
  unfolding caught
  caught-agree e w h =
      ap (λ (p : Outcome Json × World). handle_caught p.0 p.1) (guarded_call-agree e w h)

  submit_loaded-agree :
      (o : Option Execution) (w : World)
      → OnSome (λ e. e.id ≡ id) o
      → submit_loaded write_guard lease s id o w ≡ submit_loaded write_guard lease other id o w
  unfolding submit_loaded submission_failed
  submit_loaded-agree none w h = refl
  submit_loaded-agree (some e) w h =
      first-agree _ _ _ w (caught-agree e w h) ∙ bind-agree _ _ _ w (settled-agree e)

  pub submit-agree :
      (e : Execution) (w : World)
      → e.id ≡ id
      → submit write_guard lease s e w ≡ submit write_guard lease other e w
  unfolding submit
  submit-agree e w h = bind-agree _ _ _ w λ _ u. bind-agree _ _ _ u λ _ v.
      known-agree (λ o x. OnSome (λ r. r.id ≡ id) o) _ _ _ v
        (subst
          (λ i.
            Returns (λ o x. OnSome (λ r. r.id ≡ i) o) (caught (refreshed object_deleted e.id)) v)
          h (Returns-caught (λ r. r.id ≡ e.id) _ v (refreshed-IsOf object_deleted e.id v)))
        λ o x k.
          subst
            (λ i.
              submit_loaded write_guard lease s i o x ≡ submit_loaded write_guard lease other i o x)
            (sym h) (submit_loaded-agree o x k)

module _ (py : Python) (client : Client) (deploy : Params → Exec Json)
    (start_vm : String → Json → Exec Json) (id lease : String)
    (same : IsSameUnderLease id lease client deploy start_vm) (plan : Json) where
  -- the client with the other submissions
  abbrev pub replaced : Client
  replaced = record client { deploy_virtual_machine = deploy; start_virtual_machine = start_vm }

  pub deploy_call-agree :
      (e : Execution) (w : World)
      → HasLease id lease w
      → deploy_call py client plan e w ≡ deploy_call py replaced plan e w
  unfolding deploy_call ◌>>=◌ lift
  deploy_call-agree e w h = elim (Outcome-cases (deploy_params py e plan)) [
    | inl (p, k) ↦ rw k (same.deploys p w h)
    | inr (x, k) ↦ rw k refl
  ]

  pub start_call-agree :
      (e : Execution) (w : World)
      → HasLease id lease w
      → start_call py client plan e w ≡ start_call py replaced plan e w
  unfolding start_call start_host ◌>>=◌ lift
  start_call-agree e w h = elim (Outcome-cases (start_host py client plan)) [
    | inl (p, k) ↦ rw k (same.starts e.id p w h)
    | inr (x, k) ↦ rw k refl
  ]
