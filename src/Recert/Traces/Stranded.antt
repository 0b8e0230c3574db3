-- ===== src/Recert/Traces/Stranded.antt =====
-- A campaign whose closing failed: the status `closing`, which nothing takes back.
use jinbe.Prelude.{
  TextOps, ℕ, String, ◌≡◌, sym, ap, ◌∙◌, eq_refl, Option, some, List, [], ◌∷◌, Result, ok, err,
  arith,
}
use jinbe.Redis.{Redis}
use jinbe.Kratos.{Kratos}
use jinbe.Recert.{
  RecertState, RecertCampaign, active, closing, Error, get_campaign, get_items, set_campaign,
}
use jinbe.Recert.Closing.{close_campaign, finish}
use jinbe.Recert.Lifecycle.{
  Moves, stays, created, activated, stranded, closed, deleted, IsKeyed, IsStep, IsStep-IsKeyed,
}
use jinbe.Recert.Frames.{close_items-campaigns}
use jinbe.Recert.Lifecycle.{stays}
use jinbe.Recert.Traces.{Request, perform, run, IsFresh, perform-IsStep}
use jinbe.Recert.Lifecycle.Closing.{closing_campaign}

closing_stays :
    (now : ℕ) (id : String) (o p : Option RecertCampaign) (c : RecertCampaign)
    → Moves now id o p
    → o ≡ some c
    → c.status ≡ closing
    → p ≡ some c
closing_stays now id _ _ c (stays o) h st = h
closing_stays now id _ _ c (created c' e d) h st = cc
closing_stays now id _ _ c (activated c' d) h st = cc
closing_stays now id _ _ c (stranded c' d) h st = cc
closing_stays now id _ _ c (closed c' d) h st = cc
closing_stays now id _ _ c (deleted c' d) h st = cc

module _ (redis : Redis) (kratos : Kratos) (js : TextOps) where
  -- A campaign that is stored with the status `closing` is stored unchanged after every run of
  -- requests: its record is neither completed, nor made active again, nor deleted. The state before
  -- stores each campaign under its own id, and a request that creates uses an id that is free.
  pub run-closing :
      (rs : List (ℕ × Request)) (s : RecertState redis kratos) (id : String) (c : RecertCampaign)
      → IsKeyed redis kratos s
      → IsFresh redis kratos js rs s
      → get_campaign redis kratos s id ≡ some c
      → c.status ≡ closing
      → get_campaign redis kratos (run redis kratos js rs s) id ≡ some c
  unfolding run IsFresh IsStep
  run-closing [] s id c k f found st = found
  run-closing ((now, r) ∷ rs) s id c k (free, f) found st =
      let step = perform-IsStep redis kratos js now r s k free in
      run-closing rs (perform redis kratos js now r s) id c
        (IsStep-IsKeyed redis kratos now s _ step k) f
        (closing_stays now id _ _ c (step id) found st) st

  finish-err :
      (now : ℕ) (c : RecertCampaign) (p : Result Error (Unit {0}) × RecertState redis kratos)
      (e : Error) (t : RecertState redis kratos)
      → finish redis kratos js now c p ≡ (err e, t)
      → p ≡ (err e, t)
  unfolding finish
  finish-err now c (err e', s) e t h = cc
  finish-err now c (ok u, s) e t h = cc

  -- If closing an active campaign fails, the campaign is left stored with the status `closing`.
  -- The state before stores each campaign under its own id.
  pub close_campaign-closing :
      (now : ℕ) (id : String) (s t : RecertState redis kratos) (c : RecertCampaign) (e : Error)
      → IsKeyed redis kratos s
      → get_campaign redis kratos s id ≡ some c
      → c.status ≡ active
      → close_campaign redis kratos js now id s ≡ (err e, t)
      → get_campaign redis kratos t id ≡ some (record c { status = closing })
  unfolding close_campaign IsKeyed
  close_campaign-closing now id s t c e k found is_open h =
      let s' = set_campaign redis kratos (closing_campaign c) s in
      let items = get_items redis kratos s' id in
      let failed =
        finish-err now (closing_campaign c) _ e t (rw (found, close_campaign, is_open) at h) in
      let kept = close_items-campaigns redis kratos js now id c.on_expiry items s' in
      let at_t : t.campaigns ≡ s'.campaigns = ap (λ p. p.1.campaigns) (sym failed) ∙ kept in
      ap (λ m. redis.hget RecertCampaign m id) at_t
      ∙ redis.hget-hset RecertCampaign s.campaigns c.id id (closing_campaign c)
      ∙ ground (arith, k id c found, eq_refl id)
