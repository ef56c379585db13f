-- ===== src/Routes/Handlers/Soundness.antt =====
-- provider/routes.go: what reaches a provider, and what a client is told of its answer.
use managed_services_lib.Common.{
  String, ◌≡◌, ◌≢◌, refl, ◌⊎◌, inl, inr, Bool, true, none, some, ◌==◌, eq_iff, arith, Bool-cases,
}
use managed_services_lib.Model.Contract.{ServiceId, ServiceStatus}
use managed_services_lib.Provider.Interface.{CreateRequest, UpdateRequest, Provider}
use managed_services_lib.Http.{Request, Context, Finish, returned, json, error_object}
use managed_services_lib.Routes.Payloads.{
  CreateBody, UpdateFields, BackupBody, Bound, bound, rejected, Binder, valid_create_body,
  valid_update_fields, valid_backup_body, valid_service_fields, valid_recover_from, gt_zero,
}
use managed_services_lib.Routes.Handlers.{
  create, update, update_bound, after_error, create_request, update_request,
}

-- gin's `ShouldBind…` validates what it has decoded.
pub record Validates {PlanParams Config Secrets UpdateParams : Type 0} (url : String → Bool)
    (binder : Binder PlanParams Config Secrets UpdateParams) : Type 0 where
  pub create_body :
      (raw : String) (b : CreateBody PlanParams Config Secrets)
      → binder.create_body raw ≡ bound b
      → valid_create_body url b ≡ true
  pub update_fields :
      (raw : String) (f : UpdateFields)
      → binder.update_fields raw ≡ bound f
      → valid_update_fields f ≡ true
  pub backup_body :
      (raw : String) (b : BackupBody)
      → binder.backup_body raw ≡ bound b
      → valid_backup_body url b ≡ true

pub Bound-cases :
    {A : Type 0} (b : Bound A) → ((a : A) × (b ≡ bound a)) ⊎ ((t : String) × (b ≡ rejected t))
Bound-cases (bound a) = inl (a, refl)
Bound-cases (rejected t) = inr (t, refl)

-- A 400 that leaves the world alone.
abbrev pub Refused : {S D : Type 0} → Context D → S → Finish D × S → Type 0
Refused c s out = (text : String) × (out ≡ (returned (json 400 (error_object text) c), s))

module _ {S PlanParams Config Secrets Details UpdateParams : Type 0} (url : String → Bool)
    (binder : Binder PlanParams Config Secrets UpdateParams) (ok : Validates url binder)
    (p : Provider S PlanParams Config Secrets Details UpdateParams) (req : Request)
    (c : Context (ServiceStatus PlanParams Config Details)) (s : S) where
  -- With a binder that validates what it decodes: a create request whose body does not bind is
  -- refused with a 400 and the binder's text, and changes nothing. For any other the provider is
  -- called exactly once, with a request that has all seven fields of the body, the restore among
  -- them; this request has an id, a positive team and, if it restores, a valid source; and the
  -- answer is 201, or that to the provider's error or panic.
  pub create_sound :
      ((text : String) × (binder.create_body req.body ≡ rejected text)
        × (create binder p req c s ≡ (returned (json 400 (error_object text) c), s)))
      ⊎ ((b : CreateBody PlanParams Config Secrets) × (r : CreateRequest PlanParams Config Secrets)
          × (binder.create_body req.body ≡ bound b)
          × (create binder p req c s ≡ after_error 201 c (p.create r s))
          × ((r.id ≡ b.id) × (r.team_id ≡ b.team_id) × (r.custom_subdomain ≡ b.custom_subdomain))
          × (r.plan ≡ b.plan.parameters)
          × (r.config ≡ b.config)
          × (r.secrets ≡ b.secrets)
          × (r.recover_from ≡ b.recover_from)
          × ((r.id ≢ "") × (gt_zero r.team_id ≡ true))
          × (elim r.recover_from [ none ↦ true | some x ↦ valid_recover_from url x ] ≡ true))
  unfolding create
  create_sound = elim (Bound-cases (binder.create_body req.body)) [
    | inl (b, e) ↦
        let valid : valid_create_body url b ≡ true = ok.create_body req.body b e in
        inr (
          b,
          create_request b,
          e,
          rw (e, create),
          (refl, refl, refl),
          refl,
          refl,
          refl,
          refl,
          (
            unfold valid_create_body valid_service_fields in ground (arith, valid, eq_iff b.id ""),
            unfold valid_create_body valid_service_fields in ground (arith, valid),
          ),
          unfold valid_create_body in ground (arith, valid),
        )
    | inr (t, e) ↦ inl (t, e, rw (e, create))
  ]

  -- The bodies of a PATCH that are refused, with the text: the fields or the parameters do not bind, or
  -- the body names another service than the path.
  abbrev pub PatchRefusal : ServiceId → String → Type 0
  PatchRefusal id text =
      (binder.update_fields req.body ≡ rejected text)
      ⊎ (binder.update_params req.body ≡ rejected text)
      ⊎ ((f : UpdateFields) × (binder.update_fields req.body ≡ bound f)
          × (f.id ≢ id)
          × (text ≡ "id in body must match path"))

  -- With a binder that validates what it decodes: a PATCH is refused with a 400 that changes
  -- nothing only if its fields or its parameters do not bind, or its body names another service
  -- than the path. Otherwise the body names the service of the path, which has an id, and the
  -- provider is called exactly once, for that service, with all fields of the body, a positive team
  -- among them, and the parameters; and the answer is 204, or that to the provider's error or
  -- panic.
  pub update_sound :
      (id : ServiceId)
      → ((text : String) × PatchRefusal id text
          × (update binder p id req c s ≡ (returned (json 400 (error_object text) c), s)))
        ⊎ ((f : UpdateFields) × (args : UpdateParams) × (r : UpdateRequest UpdateParams)
            × (binder.update_fields req.body ≡ bound f)
            × (binder.update_params req.body ≡ bound args)
            × (f.id ≡ id)
            × (update binder p id req c s ≡ after_error 204 c (p.update r s))
            × ((r.id ≡ id) × (r.team_id ≡ f.team_id) × (r.custom_subdomain ≡ f.custom_subdomain))
            × ((r.pause ≡ f.pause) × (r.backups ≡ f.backups) × (r.params ≡ args))
            × (id ≢ "")
            × (gt_zero r.team_id ≡ true))
  unfolding update update_bound
  update_sound id = elim (Bound-cases (binder.update_fields req.body)) [
    | inr (t, e) ↦ inl (t, inl e, rw (e, update))
    | inl (f, e) ↦ (elim (Bound-cases (binder.update_params req.body)) [
      | inr (t, e') ↦ inl (t, inr (inl e'), rw (e, update) (rw e'))
      | inl (args, e') ↦
          let valid : valid_update_fields f ≡ true = ok.update_fields req.body f e in
          (elim (Bool-cases (f.id == id)) [
            | inl same ↦ inr (
              f,
              args,
              update_request id f args,
              e,
              e',
              ground (arith, same, eq_iff f.id id),
              rw (e, update) (rw (e', same)),
              (refl, refl, refl),
              (refl, refl, refl),
              unfold valid_update_fields valid_service_fields in
                  ground (arith, valid, same, eq_iff f.id id, eq_iff f.id ""),
              unfold valid_update_fields valid_service_fields in ground (arith, valid),
            )
            | inr other ↦ inl (
              "id in body must match path",
              inr (inr (f, e, ground (arith, other, eq_iff f.id id), refl)),
              rw (e, update) (rw (e', other)),
            )
          ])
    ])
  ]
