-- ===== src/Recert/Decisions/Guards.antt =====
-- What a decision that was recorded tells of its campaign, its item and the one who decided.
use jinbe.Prelude.{
  TextOps, ℕ, String, ◌≡◌, ◌≢◌, refl, sym, ap, subst, ◌∙◌, true, false, ◌&&◌, eq_iff, Option, none,
  some, Result, ok, err, arith, Option-cases, Bool-cases, Result-cases, inl, inr, is_none,
}
use jinbe.Redis.{Redis}
use jinbe.Kratos.{Kratos}
use jinbe.Recert.{
  RecertState, RecertCampaign, RecertItem, Decision, Status, pending, active, Error, is_active,
  get_campaign, get_item, norm, set_item, remove_from_inbox,
}
use jinbe.Recert.Decisions.{
  Admitted, admit, admit_item, admit_campaign, record_decision, decide, decider, decided,
  is_revoked, trimmed, apply_decision, complete_if_done,
}

pub is_active-eq : (st : Status) → is_active st ≡ true → st ≡ active
is_active-eq st h = ground arith

module _ (redis : Redis) (kratos : Kratos) (js : TextOps) (now : ℕ) (s t : RecertState redis kratos)
    (campaign_id item_id : String) (d : Decision) (comment actor : Option String) where
  -- The guards, as facts about the state before.
  pub record IsAllowed (a : Admitted redis kratos js now) : Type 0 where
    pub identified : decider redis kratos js now actor ≡ some a.by
    pub found : get_campaign redis kratos s campaign_id ≡ some a.campaign
    pub is_open : a.campaign.status ≡ active
    pub listed : get_item redis kratos s campaign_id item_id ≡ some a.item
    pub undecided : a.item.decision ≡ pending
    pub not_self : norm js a.item.subject ≢ a.by
    pub explained : is_revoked d && is_none (trimmed js comment) ≡ false

  admit_item-ok :
      (by : String) (c : RecertCampaign) (o : Option RecertItem) (a : Admitted redis kratos js now)
      → admit_item redis kratos js now d comment by c o ≡ ok a
      → (a.by ≡ by)
        × (a.campaign ≡ c)
        × (o ≡ some a.item)
        × (a.item.decision ≡ pending)
        × (norm js a.item.subject ≢ a.by)
        × (is_revoked d && is_none (trimmed js comment) ≡ false)
  unfolding admit_item
  admit_item-ok by c none a h = cc
  admit_item-ok by c (some i) a h =
      let same : a ≡ record { by = by; campaign = c; item = i } = ground arith in
      rw same (
        refl,
        refl,
        refl,
        ground arith,
        ground (arith, eq_iff (norm js i.subject) by),
        ground arith,
      )

  admit_campaign-ok :
      (by : String) (o : Option RecertItem) (p : Option RecertCampaign)
      (a : Admitted redis kratos js now)
      → admit_campaign redis kratos js now d comment by o p ≡ ok a
      → (p ≡ some a.campaign)
        × (a.campaign.status ≡ active)
        × (admit_item redis kratos js now d comment by a.campaign o ≡ ok a)
  unfolding admit_campaign
  admit_campaign-ok by o none a h = cc
  admit_campaign-ok by o (some c) a h = elim (Bool-cases (is_active c.status)) [
    | inr closed ↦ cc (rw closed at h)
    | inl is_open ↦
        let admitted = rw is_open at h in
        let same = (admit_item-ok by c o a admitted).1 in
        (
          ap some (sym same),
          ap (λ (x : RecertCampaign). x.status) same ∙ is_active-eq c.status is_open,
          subst (λ (x : RecertCampaign). admit_item redis kratos js now d comment by x o ≡ ok a)
              (sym same) admitted,
        )
  ]

  pub admit-IsAllowed :
      (a : Admitted redis kratos js now)
      → admit redis kratos js now campaign_id item_id d comment actor s ≡ ok a
      → IsAllowed a
  unfolding admit
  admit-IsAllowed a h = elim (Option-cases (decider redis kratos js now actor)) [
    | inl anonymous ↦ cc (rw (anonymous, admit) at h)
    | inr (by, identified) ↦
        let (found, is_open, admitted) = admit_campaign-ok by _ _ a (rw (identified, admit) at h) in
        let (same, _, listed, undecided, not_self, explained) =
          admit_item-ok by a.campaign _ a admitted in
        record {
          identified = rw same identified;
          found = found;
          is_open = is_open;
          listed = listed;
          undecided = undecided;
          not_self = not_self;
          explained = explained;
        }
  ]

  -- The rest of the method, from the guards on.
  pub record IsRecorded (a : Admitted redis kratos js now) (done : RecertItem) : Type 0 where
    pub applied :
        (apply_decision redis kratos js now (decided redis kratos js now a.item d a.by comment) s).0
        ≡ ok done
    pub final :
        t
        ≡ complete_if_done redis kratos js now campaign_id a.campaign (
            remove_from_inbox redis kratos js done.reviewer campaign_id item_id (
              set_item redis kratos done
                (apply_decision redis kratos js now
                  (decided redis kratos js now a.item d a.by comment)
                  s).1))

  record_decision-ok :
      (c : RecertCampaign) (p : Result Error RecertItem × RecertState redis kratos)
      (done : RecertItem)
      → record_decision redis kratos js now campaign_id item_id c p ≡ (ok done, t)
      → (p.0 ≡ ok done)
        × (t
            ≡ complete_if_done redis kratos js now campaign_id c (
                remove_from_inbox redis kratos js done.reviewer campaign_id item_id
                  (set_item redis kratos done p.1)))
  unfolding record_decision
  record_decision-ok c (err e, u) done h = cc
  record_decision-ok c (ok done', u) done h =
      let same : done' ≡ done = cc in rw (← same) (refl, sym (ap (λ x. x.1) h))

  -- A decision that is recorded was allowed: its campaign is active, the item is in it and was
  -- pending, the one who decides has an address and is not the item's subject, and a revocation
  -- has a comment. What is stored is the item with that decision, after it was applied.
  pub decide-IsAllowed :
      (done : RecertItem)
      → decide redis kratos js now campaign_id item_id d comment actor s ≡ (ok done, t)
      → (a : Admitted redis kratos js now) × IsAllowed a × IsRecorded a done
  unfolding decide
  decide-IsAllowed done h =
      elim (Result-cases (admit redis kratos js now campaign_id item_id d comment actor s)) [
        | inl (e, refused) ↦ cc (rw (refused, decide) at h)
        | inr (a, admitted) ↦
            let (applied, final) =
              record_decision-ok a.campaign _ done (rw (admitted, decide) at h) in
            (a, admit-IsAllowed a admitted, record { applied = applied; final = final })
      ]
