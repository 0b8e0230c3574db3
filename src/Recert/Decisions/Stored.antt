-- ===== src/Recert/Decisions/Stored.antt =====
-- The item of a decision as the store holds it afterwards.
use jinbe.Prelude.{
  TextOps, ℕ, String, ◌≡◌, refl, sym, ap, subst, ◌∙◌, Bool, true, false, ◌==◌, eq_iff,
  if◌then◌else◌, Option, none, some, Result, ok, err, Bool-cases, inl, inr, ◌⊎◌, is_empty, filter,
}
use jinbe.Redis.{Redis}
use jinbe.Kratos.{Kratos}
use jinbe.Recert.{
  RecertState, RecertCampaign, RecertItem, Decision, ItemOutcome, revoke_applied, get_item,
  is_pending, Error, get_items, set_item, remove_from_inbox, finalize, must_keep,
}
use jinbe.Recert.Decisions.{
  trimmed, is_revoked, apply_decision, mark_applied, complete_if_done, decide,
}
use jinbe.Recert.Lifecycle.{IsKeyed}
use jinbe.Recert.Sweep.{swept, AreKeyed, hget-sweep}
use jinbe.Recert.Closing.Loops.{kept_item, AreFiled}
use jinbe.Recert.Closing.Outcomes.{finalize-items}
use jinbe.Recert.Decisions.{decided, decider}
use jinbe.Recert.Decisions.Guards.{decide-IsAllowed}
use jinbe.Recert.Closing.Loops.{set_item-items, kept_item, AreFiled, remove_group_membership-items}

if_true : {A : Type 0} {b : Bool} (x y : A) → b ≡ true → (if b then x else y) ≡ x
if_true x y e = rw e refl

if_false : {A : Type 0} {b : Bool} (x y : A) → b ≡ false → (if b then x else y) ≡ y
if_false x y e = rw e refl

module _ (redis : Redis) (kratos : Kratos) (js : TextOps) (now : ℕ) (id : String) where
  abbrev St : Type 0
  St = RecertState redis kratos

  -- a revocation that was applied, or the outcome there was
  abbrev pub outcome_of : Decision → Option ItemOutcome → Option ItemOutcome
  outcome_of d before = if is_revoked d then some revoke_applied else before

  -- what the application of a decision leaves of the item and of the other items
  mark_applied-ok :
      (i done : RecertItem) (p : Result Error (Unit {0}) × St)
      → (mark_applied redis kratos js now i p).0 ≡ ok done
      → (done ≡ record i { outcome = some revoke_applied })
        × ((mark_applied redis kratos js now i p).1.items ≡ p.1.items)
  unfolding mark_applied
  mark_applied-ok i done (err e, s) h = cc
  mark_applied-ok i done (ok u, s) h = (cc, refl)

  apply_decision-ok :
      (i done : RecertItem) (s : St)
      → (apply_decision redis kratos js now i s).0 ≡ ok done
      → (done ≡ record i { outcome = outcome_of i.decision i.outcome })
        × ((apply_decision redis kratos js now i s).1.items ≡ s.items)
  unfolding apply_decision
  apply_decision-ok i done s h = elim (Bool-cases (is_revoked i.decision)) [
    | inl e ↦
        let (same, left) = mark_applied-ok i done _ (rw (e, apply_decision) at h) in
        (
          same
              ∙ ap (λ b. record i { outcome = if b then some revoke_applied else i.outcome })
                  (sym e),
          rw (e, apply_decision)
              (left ∙ remove_group_membership-items redis kratos js now id i.subject i.group s),
        )
    | inr e ↦
        let same : i ≡ done = cc (rw (e, apply_decision) at h) in
        (
          sym same
              ∙ ap (λ b. record i { outcome = if b then some revoke_applied else i.outcome })
                  (sym e),
          rw (e, apply_decision) refl,
        )
  ]

  get_item-set_item :
      (i : RecertItem) (s : St) (k : String)
      → i.campaign_id ≡ id
      → get_item redis kratos (set_item redis kratos i s) id k
        ≡ (if i.id == k then some i else get_item redis kratos s id k)
  get_item-set_item i s k same =
      ap (λ m. redis.hget RecertItem m k) (set_item-items redis kratos js now id i s same)
      ∙ redis.hget-hset RecertItem (s.items id) i.id k i

  stored_item :
      (i j : RecertItem) (s : St) (k : String)
      → i.campaign_id ≡ id
      → get_item redis kratos (set_item redis kratos i s) id k ≡ some j
      → ((i ≡ j) × (i.id ≡ k)) ⊎ (get_item redis kratos s id k ≡ some j)
  stored_item i j s k same h =
      let here = sym (get_item-set_item i s k same) ∙ h in
      elim (Bool-cases (i.id == k)) [
        | inl e ↦ inl (cc (rw e at here), (eq_iff i.id k).0 e)
        | inr e ↦ inr (rw e at here)
      ]

  set_item-AreFiled :
      (i : RecertItem) (s : St)
      → i.campaign_id ≡ id
      → AreFiled redis kratos js now id s
      → AreFiled redis kratos js now id (set_item redis kratos i s)
  unfolding AreFiled AreKeyed
  set_item-AreFiled i s same (keyed, filed) = (
    (λ k j e. elim (stored_item i j s k same e) [
      | inl (this, at_k) ↦ sym (ap (λ (x : RecertItem). x.id) this) ∙ at_k
      | inr other ↦ keyed k j other
    ]),
    (λ k j e. elim (stored_item i j s k same e) [
      | inl (this, at_k) ↦ sym (ap (λ (x : RecertItem). x.campaign_id) this) ∙ same
      | inr other ↦ filed k j other
    ]),
  )

  -- an item that completion of the campaign treats, or leaves
  abbrev pub IsStoredAs : St → String → RecertItem → Type 0
  IsStoredAs t k i =
      (get_item redis kratos t id k ≡ some i) ⊎ (get_item redis kratos t id k ≡ some (kept_item i))

  finalize-IsStoredAs :
      (c : RecertCampaign) (u : St) (k : String) (i : RecertItem)
      → c.id ≡ id
      → AreFiled redis kratos js now id u
      → get_item redis kratos u id k ≡ some i
      → IsStoredAs (finalize redis kratos now c u) k i
  unfolding AreFiled
  finalize-IsStoredAs c u k i same filed held =
      let swept_at =
        ap (λ m. redis.hget RecertItem m k) (finalize-items redis kratos js now id c u same filed)
        ∙ hget-sweep redis must_keep kept_item (u.items id) k filed.0
        ∙ ap (swept redis must_keep kept_item) held in
      elim (Bool-cases (must_keep i)) [
        | inl e ↦ inr (swept_at ∙ if_true (some (kept_item i)) (some i) e)
        | inr e ↦ inl (swept_at ∙ if_false (some (kept_item i)) (some i) e)
      ]

  complete_if_done-IsStoredAs :
      (c : RecertCampaign) (u : St) (k : String) (i : RecertItem)
      → c.id ≡ id
      → AreFiled redis kratos js now id u
      → get_item redis kratos u id k ≡ some i
      → IsStoredAs (complete_if_done redis kratos js now id c u) k i
  unfolding complete_if_done
  complete_if_done-IsStoredAs c u k i same filed held =
      elim (Bool-cases (
        is_empty
          (filter (λ (x : RecertItem). is_pending x.decision) (get_items redis kratos u id)))) [
            | inl e ↦ rw (e, complete_if_done) (finalize-IsStoredAs c u k i same filed held)
            | inr e ↦ inl (rw (e, complete_if_done) held)
          ]

  -- A decision that is recorded is stored: the item is the one before with the decision, who
  -- decided and when, the trimmed comment if there is one, and for a revocation the outcome that it
  -- was applied; completing the campaign adds no more than the outcome `kept`. The state before
  -- stores the items and the campaign under their own ids.
  pub decide-IsStoredAs :
      (item_id : String) (d : Decision) (comment actor : Option String) (s t : St)
      (done : RecertItem)
      → AreFiled redis kratos js now id s
      → IsKeyed redis kratos s
      → decide redis kratos js now id item_id d comment actor s ≡ (ok done, t)
      → ((before : RecertItem) × (get_item redis kratos s id item_id ≡ some before)
          × (done ≡ record before {
            decision = d;
            decided_by = decider redis kratos js now actor;
            decided_at = some now;
            comment = elim (trimmed js comment) [ none ↦ before.comment | some text ↦ some text ];
            outcome = outcome_of d before.outcome;
          }))
        × IsStoredAs t item_id done
  unfolding AreFiled AreKeyed IsKeyed
  decide-IsStoredAs item_id d comment actor s t done filed keyed h =
      let (a, allowed, recorded) =
        decide-IsAllowed redis kratos js now s t id item_id d comment actor done h in
      let before = a.item in
      let i = decided redis kratos js now before d a.by comment in
      let (same, left) = apply_decision-ok i done s recorded.applied in
      let u = (apply_decision redis kratos js now i s).1 in
      let filed_u : AreFiled redis kratos js now id u =
        subst
          (λ m.
            AreKeyed redis (m id)
            × ((k : String) (x : RecertItem)
                → redis.hget RecertItem (m id) k ≡ some x
                → x.campaign_id ≡ id))
          (sym left) filed in
      let at_id : done.campaign_id ≡ id =
        ap (λ (x : RecertItem). x.campaign_id) same ∙ filed.1 item_id before allowed.listed in
      let at_item : done.id ≡ item_id =
        ap (λ (x : RecertItem). x.id) same ∙ filed.0 item_id before allowed.listed in
      let v =
        remove_from_inbox redis kratos js done.reviewer id item_id (set_item redis kratos done u) in
      let held : get_item redis kratos v id item_id ≡ some done =
        get_item-set_item done u item_id at_id
        ∙ if_true (some done) _ ((eq_iff done.id item_id).1 at_item) in
      (
        (
          before,
          allowed.listed,
          same
              ∙ ap (λ by. record i { decided_by = by; outcome = outcome_of d before.outcome })
                  (sym allowed.identified),
        ),
        subst (λ x. IsStoredAs x item_id done) (sym recorded.final)
            (complete_if_done-IsStoredAs a.campaign v item_id done
              (keyed id a.campaign allowed.found) (set_item-AreFiled done u at_id filed_u) held),
      )
