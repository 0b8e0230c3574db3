-- ===== src/Recert/Closing/Outcomes.antt =====
-- What a closed campaign is: completed, reported, and each of its items with its outcome.
use jinbe.Prelude.{
  TextOps, ℕ, String, ◌≡◌, refl, sym, ap, ◌∙◌, eq_refl, if◌then◌else◌, Option, none, some, [], ◌∷◌,
  Result, ok, err, arith, Bool-cases, inl, inr, is_some, All, Entries,
}
use jinbe.Redis.{Redis}
use jinbe.Kratos.{Kratos}
use jinbe.Recert.{
  RecertState, RecertCampaign, RecertItem, RecertReport, OnExpiry, pending, approved, revoked,
  revoke, flag, values, get_item, active, completed, Error, get_campaign, get_items, get_report,
  set_campaign, set_report, keep_items, finalize, must_keep,
}
use jinbe.Recert.Closing.{close_items, close_campaign, finish}
use jinbe.Recert.Sweep.{sweep, swept, AreKeyed, hget-sweep}
use jinbe.Recert.Lifecycle.Closing.{closing_campaign}
use jinbe.Recert.Frames.{finalize-campaigns}
use jinbe.Recert.Closing.Loops.{
  expired, pending_item, kept_item, AreFiled, close_items-sweep, keep_items-sweep,
}

-- The item as the closing should leave it.
abbrev pub outcome_at_close : OnExpiry → RecertItem → RecertItem
outcome_at_close on_expiry i = elim i.decision [
  | pending ↦ expired on_expiry i
  | approved ↦ if is_some i.outcome then i else kept_item i
  | revoked ↦ i
]

abbrev pub map_item : (RecertItem → RecertItem) → Option RecertItem → Option RecertItem
map_item f none = none
map_item f (some i) = some (f i)

expired-decision : (o : OnExpiry) (i : RecertItem) → (expired o i).decision ≡ i.decision
expired-decision revoke i = refl
expired-decision flag i = refl

expired-id :
    (o : OnExpiry) (i : RecertItem)
    → ((expired o i).id ≡ i.id) × ((expired o i).campaign_id ≡ i.campaign_id)
expired-id revoke i = (refl, refl)
expired-id flag i = (refl, refl)

module _ (redis : Redis) (kratos : Kratos) (js : TextOps) (now : ℕ) (id : String) where
  abbrev St : Type 0
  St = RecertState redis kratos

  -- both walks, one after the other, on one item
  swept-twice :
      (o : OnExpiry) (p : Option RecertItem)
      → swept redis must_keep kept_item (swept redis pending_item (expired o) p)
        ≡ map_item (outcome_at_close o) p
  swept-twice o none = refl
  swept-twice revoke (some i) = ground arith
  swept-twice flag (some i) = ground arith

  All-values :
      (P : RecertItem → Type 0) (h : redis.Hash RecertItem) (m : Entries RecertItem)
      → ((k : String) (i : RecertItem) → redis.hget RecertItem h k ≡ some i → P i)
      → All (λ (k, i). redis.hget RecertItem h k ≡ some i) m
      → All P (values m)
  All-values P h [] f a = tt
  All-values P h ((k, i) ∷ m) f (e, a) = (f k i e, All-values P h m f a)

  filed_values :
      (s : St)
      → AreFiled redis kratos js now id s
      → All (λ (i : RecertItem). i.campaign_id ≡ id) (get_items redis kratos s id)
  unfolding AreFiled
  filed_values s (keyed, filed) =
      All-values (λ (i : RecertItem). i.campaign_id ≡ id) (s.items id) _ filed
        (redis.hgetall-hget RecertItem (s.items id))

  swept-id :
      (o : OnExpiry) (p : Option RecertItem) (i : RecertItem)
      → swept redis pending_item (expired o) p ≡ some i
      → (j : RecertItem) × (p ≡ some j) × (i.id ≡ j.id) × (i.campaign_id ≡ j.campaign_id)
  swept-id o none i h = cc
  swept-id o (some j) i h = elim (Bool-cases (pending_item j)) [
    | inl e ↦
        let same : expired o j ≡ i = cc (rw e at h) in
        let (a, b) = expired-id o j in
        (
          j,
          refl,
          ap (λ (x : RecertItem). x.id) (sym same) ∙ a,
          ap (λ (x : RecertItem). x.campaign_id) (sym same) ∙ b,
        )
    | inr e ↦
        let same : i ≡ j = cc (rw e at h) in
        (j, refl, ap (λ (x : RecertItem). x.id) same, ap (λ (x : RecertItem). x.campaign_id) same)
  ]

  AreFiled-sweep :
      (o : OnExpiry) (s u : St)
      → AreFiled redis kratos js now id s
      → u.items id ≡ sweep redis pending_item (expired o) (get_items redis kratos s id) (s.items id)
      → AreFiled redis kratos js now id u
  unfolding AreFiled AreKeyed
  AreFiled-sweep o s u (keyed, filed) h =
      let at_k : (k : String)
          → redis.hget RecertItem (u.items id) k
            ≡ swept redis pending_item (expired o) (redis.hget RecertItem (s.items id) k) =
        λ k.
          ap (λ m. redis.hget RecertItem m k) h
          ∙ hget-sweep redis pending_item (expired o) (s.items id) k keyed in
      (
        (λ k i e. let (j, found, a, b) = swept-id o _ i (sym (at_k k) ∙ e) in a ∙ keyed k j found),
        (λ k i e. let (j, found, a, b) = swept-id o _ i (sym (at_k k) ∙ e) in b ∙ filed k j found),
      )

  set_report-items : (r : RecertReport) (s : St) → (set_report redis kratos r s).items ≡ s.items
  set_report-items r s = elim (Bool-cases (is_some (get_report redis kratos s r.campaign_id))) [
    | inl e ↦ rw e refl
    | inr e ↦ rw e refl
  ]

  pub finalize-items :
      (c : RecertCampaign) (u : St)
      → c.id ≡ id
      → AreFiled redis kratos js now id u
      → (finalize redis kratos now c u).items id
        ≡ sweep redis must_keep kept_item (get_items redis kratos u id) (u.items id)
  unfolding finalize
  finalize-items c u same filed =
      ap (λ m. m id) (set_report-items _ _)
      ∙ ap (λ j. (keep_items redis kratos (get_items redis kratos u j) u).items id) same
      ∙ keep_items-sweep redis kratos js now id (get_items redis kratos u id) u
          (filed_values u filed)

  finish-ok :
      (c c' : RecertCampaign) (p : Result Error (Unit {0}) × St) (t : St)
      → finish redis kratos js now c p ≡ (ok c', t)
      → (p.0 ≡ ok tt) × (t ≡ finalize redis kratos now c p.1)
  unfolding finish
  finish-ok c c' (err e, s) t h = cc
  finish-ok c c' (ok u, s) t h = (refl, sym (ap (λ q. q.1) h))

  -- When closing a campaign succeeds, the campaign is completed, and each item has the outcome
  -- of the closing: a pending one the campaign's consequence, an approved one without an outcome
  -- is kept, every other one is as it was. The state before stores the items and the campaign
  -- under their own ids.
  pub close_campaign-outcomes :
      (s t : St) (c c' : RecertCampaign)
      → AreFiled redis kratos js now id s
      → get_campaign redis kratos s id ≡ some c
      → c.id ≡ id
      → c.status ≡ active
      → close_campaign redis kratos js now id s ≡ (ok c', t)
      → (get_campaign redis kratos t id
          ≡ some (record c { status = completed; closed_at = some now }))
        × ((k : String)
            → get_item redis kratos t id k
              ≡ map_item (outcome_at_close c.on_expiry) (get_item redis kratos s id k))
  unfolding close_campaign AreFiled
  close_campaign-outcomes s t c c' filed found same is_open h =
      let s' = set_campaign redis kratos (closing_campaign c) s in
      let items = get_items redis kratos s id in
      let p = close_items redis kratos js now id c.on_expiry items s' in
      let (went, final) =
        finish-ok (closing_campaign c) c' p t (rw (found, close_campaign, is_open) at h) in
      let u = p.1 in
      let first =
        close_items-sweep redis kratos js now id c.on_expiry items s' u (filed_values s filed)
          (ap (λ r. (r, u)) went) in
      let second =
        finalize-items (closing_campaign c) u same (AreFiled-sweep c.on_expiry s' u filed first) in
      let filed_u = AreFiled-sweep c.on_expiry s' u filed first in
      let done = record c { status = completed; closed_at = some now } in
      (
        ap (λ (x : St). get_campaign redis kratos x id) final
            ∙ ap (λ m. redis.hget RecertCampaign m id)
                (finalize-campaigns redis kratos js now (closing_campaign c) u)
            ∙ redis.hget-hset RecertCampaign u.campaigns c.id id done
            ∙ ground (arith, same, eq_refl id),
        (λ k.
            ap (λ (x : St). get_item redis kratos x id k) final
            ∙ ap (λ m. redis.hget RecertItem m k) second
            ∙ hget-sweep redis must_keep kept_item (u.items id) k filed_u.0
            ∙ ap (swept redis must_keep kept_item) (
                ap (λ m. redis.hget RecertItem m k) first
                ∙ hget-sweep redis pending_item (expired c.on_expiry) (s.items id) k filed.0)
            ∙ swept-twice c.on_expiry (get_item redis kratos s id k)),
      )
