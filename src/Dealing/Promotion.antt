-- ===== src/Dealing/Promotion.antt =====
-- The loop that sends waiting levels ends: `_promote_waiting_levels` of
-- backend/app/trading/deal_manager.py.
use veles_moex.Common.{
  ℕ, zero, suc, ◌+◌, ltb, Bool, true, false, Option, none, some, List, [], ◌∷◌, if◌then◌else◌,
}
use veles_moex.Domain.{ExecutionIntent, InternalOrder}
use veles_moex.Risk.{Verdict, passed, rejected}
use veles_moex.Deals.Store.{Deal, DealLevel, DealLevelStatus}
use veles_moex.Dealing.{Surroundings, Scene, Ran, returned, raised, give, ◌then_do◌, on_orders}
use veles_moex.Common.{◌≡◌, ◌∙◌, ◌<◌, refl, ap, subst, arith, inl, inr, Bool-cases, Option-cases}
use mathlib.Core.Option.{some-injective}
use veles_moex.Grid.{at, put_at}
use veles_moex.Orders.State.{Outcome, ok, err}
use veles_moex.Dealing.{then_do-cases, Holds, lifted}
use veles_moex.Dealing.TakeProfit.{submit_intent, by_verdict, is_refused}
use veles_moex.Dealing.Levels.{
  is_waiting, first_waiting, waiting_count, set_level, adopt_order, submit_level, promote_at,
  promote_next, promote_while, promote_to, promote_waiting_levels, working_level_count, is_closing,
}

module _ {F : Type 0} where
  -- A place of the list where a level waits: the levels with one fewer waiting there.
  pub data WaitsAt : ℕ → DealLevel F → List (DealLevel F) → Type 0 where
    here :
        {l : DealLevel F} {ls : List (DealLevel F)}
        → is_waiting l.status ≡ true
        → WaitsAt 0 l (l ∷ ls)
    there :
        {n : ℕ} {k l : DealLevel F} {ls : List (DealLevel F)}
        → WaitsAt n l ls
        → WaitsAt (suc n) l (k ∷ ls)

  at-WaitsAt :
      (n : ℕ) (l : DealLevel F) (ls : List (DealLevel F)) → WaitsAt n l ls → at n ls ≡ some l
  unfolding at
  at-WaitsAt _ l _ (here w) = refl
  at-WaitsAt _ l _ (there h) = at-WaitsAt _ l _ h

  first_waiting-WaitsAt :
      (ls : List (DealLevel F)) (n : ℕ)
      → first_waiting ls ≡ some n
      → (l : DealLevel F) × WaitsAt n l ls
  unfolding first_waiting
  first_waiting-WaitsAt [] n h = absurd (cc h)
  first_waiting-WaitsAt (k ∷ ls) n h = elim (Bool-cases (is_waiting k.status)) [
    | inl waits ↦
        (k, subst (λ t. WaitsAt t k (k ∷ ls)) (some-injective _ _ (rw waits at h)) (here waits))
    | inr done ↦ elim (Option-cases (first_waiting ls)) [
      | inl nothing ↦ absurd (not_here (rw (done, nothing) at h))
      | inr (m, e) ↦
          let (l, w) = first_waiting-WaitsAt ls m e in
          (l, subst (λ t. WaitsAt t l (k ∷ ls)) (some-injective _ _ (rw (done, e) at h)) (there w))
    ]
  ]
    where
      not_here : none ≡ some n → ⊥
      not_here e = cc e

  -- With levels that no longer wait in that place, whichever was put there before, one fewer waits.
  one_fewer :
      (n : ℕ) (l l' : DealLevel F) (ls : List (DealLevel F))
      → WaitsAt n l ls
      → is_waiting l'.status ≡ false
      → waiting_count (put_at n l' ls) + 1 ≡ waiting_count ls
  unfolding waiting_count put_at
  one_fewer _ l l' _ (here w) done = rw (w, done) refl
  one_fewer _ l l' (k ∷ ls) (there {n} h) done = elim (Bool-cases (is_waiting k.status)) [
    | inl waits ↦ rw waits (ap (λ t. t + 1) (one_fewer n l l' ls h done))
    | inr idle ↦ rw idle (one_fewer n l l' ls h done)
  ]

  put_twice :
      (n : ℕ) (a b : DealLevel F) (ls : List (DealLevel F))
      → put_at n b (put_at n a ls) ≡ put_at n b ls
  unfolding put_at
  put_twice n a b [] = refl
  put_twice zero a b (l ∷ ls) = refl
  put_twice (suc n) a b (l ∷ ls) = ap (λ t. l ∷ t) (put_twice n a b ls)

  -- The answer of a loop on fuel is that the fuel was enough, or it raised.
  pub Finished : Ran Bool × Scene F → Type 0
  Finished (returned enough, s) = enough ≡ true
  Finished (raised e, s) = Unit

module _ {F : Type 0} where
  holds_at :
      {A : Type 0} (Q : A → Scene F → Type 0) (r : Ran A × Scene F) (a : A) (s : Scene F)
      → Holds Q r
      → r ≡ (returned a, s)
      → Q a s
  unfolding Holds
  holds_at Q r a s h e = subst (Holds Q) e h

  lifted_keeps :
      {A : Type 0} (d : Deal F) (r : Outcome A) (s : Scene F)
      → s.deal ≡ d
      → Holds (λ _ s'. s'.deal ≡ d) (lifted r, s)
  unfolding lifted Holds
  lifted_keeps d (ok a) s e = e
  lifted_keeps d (err f) s e = tt

  verdict_keeps :
      (v : Verdict) (i : ExecutionIntent) (s : Scene F)
      → Holds (λ _ s'. s'.deal ≡ s.deal) (by_verdict v i s)
  unfolding by_verdict Holds
  verdict_keeps passed i s = refl
  verdict_keeps (rejected r) i s = tt

  -- A level that is sent keeps its status, and every other level is left alone.
  abbrev SentAt : ℕ → DealLevel F → List (DealLevel F) → Unit {0} → Scene F → Type 0
  SentAt place l ls _ s =
      (l' : DealLevel F) × (l'.status ≡ l.status) × (s.deal.levels ≡ put_at place l' ls)

  adopted :
      (place : ℕ) (l : DealLevel F) (o : InternalOrder) (d : Deal F) (s : Scene F)
      → s.deal ≡ d
      → Holds (SentAt place l d.levels) (adopt_order place l o s)
  unfolding adopt_order Holds
  adopted place l o d s same = elim (Bool-cases (is_refused o.status)) [
    | inl refused ↦ rw refused tt
    | inr accepted ↦ rw accepted (
        let l' = record l {
          intent_id = some o.intent_id;
          order_id = some o.order_id;
          broker_order_id = o.broker_order_id;
        } in
        (l', refl, ap (λ (t : Deal F). put_at place l' t.levels) same))
  ]

module _ {F : Type 0} ⦃env : Surroundings F⦄ where
  submit_keeps :
      (i : ExecutionIntent) (s : Scene F) → Holds (λ _ s'. s'.deal ≡ s.deal) (submit_intent i s)
  unfolding on_orders
  submit_keeps i s = lifted_keeps s.deal _ _ refl

  sent_level :
      (place : ℕ) (l : DealLevel F) (s : Scene F)
      → Holds (SentAt place l s.deal.levels) (submit_level place l s)
  unfolding submit_level Holds
  sent_level place l s =
      then_do-cases _ _ s (Holds (SentAt place l s.deal.levels)) (λ e s' _. tt)
        (λ i s2 let_through.
          then_do-cases (submit_intent i) (adopt_order place l) s2
            (Holds (SentAt place l s.deal.levels)) (λ e s' _. tt)
            (λ o s3 sent. adopted place l o s.deal s3 (
              holds_at (λ _ t. t.deal ≡ s2.deal) _ o s3 (submit_keeps i s2) sent
              ∙ holds_at (λ _ t. t.deal ≡ s.deal) _ i s2 (verdict_keeps _ _ s) let_through)))

  -- One turn of the loop, at a place where a level waits, leaves one level fewer waiting.
  OneFewer : List (DealLevel F) → Unit {0} → Scene F → Type 0
  OneFewer ls _ s = waiting_count s.deal.levels + 1 ≡ waiting_count ls

  promoted :
      (place : ℕ) (l : DealLevel F) (s : Scene F)
      → WaitsAt place l s.deal.levels
      → Holds (OneFewer s.deal.levels) (promote_at place (some l) s)
  unfolding promote_at ◌then_do◌ Holds OneFewer
  promoted place l s waits =
      let l' = record l { status = DealLevelStatus.active } in
      let s1 = record s { deal = set_level place l' s.deal } in
      weaken (submit_level place l' s1) (sent_level place l' s1)
    where
      weaken :
          (r : Ran (Unit {0}) × Scene F)
          → Holds
              (SentAt place
                (record l { status = DealLevelStatus.active })
                (put_at place (record l { status = DealLevelStatus.active }) s.deal.levels))
              r
          → Holds (OneFewer s.deal.levels) r
      weaken (raised e, s') h = tt
      weaken (returned u, s') (l', same_status, levels) =
          ap (λ t. waiting_count t + 1) (levels ∙ put_twice place _ l' s.deal.levels)
          ∙ one_fewer place l l' s.deal.levels waits (ap is_waiting same_status)

  Promoted : List (DealLevel F) → Bool → Scene F → Type 0
  Promoted ls more s = waiting_count s.deal.levels + 1 ≡ waiting_count ls

  next_turned :
      (place : ℕ) (l : DealLevel F) (s : Scene F)
      → WaitsAt place l s.deal.levels
      → Holds (Promoted s.deal.levels) ((promote_at place (some l) then_do λ _. give true) s)
  unfolding Holds Promoted OneFewer
  next_turned place l s waits =
      then_do-cases (promote_at place (some l)) _ s (Holds (Promoted s.deal.levels)) (λ f s' _. tt)
        (λ u s' ran. holds_at (OneFewer s.deal.levels) _ u s' (promoted place l s waits) ran)

  turn :
      (fuel limit : ℕ) (s : Scene F)
      → ((s' : Scene F)
          → waiting_count s'.deal.levels < fuel
          → Finished (promote_while fuel limit s'))
      → waiting_count s.deal.levels < suc fuel
      → (o : Option ℕ) → first_waiting s.deal.levels ≡ o
      → Finished
          ((promote_next o then_do λ more. if more then promote_while fuel limit else give true) s)
  unfolding promote_next Finished Promoted
  turn fuel limit s again enough none e =
      then_do-cases (promote_next none) _ s Finished (λ f s' _. tt)
        (λ more s' ran. over more s' ran)
    where
      distinct : ◌≡◌ {A = Ran Bool} (returned false) (returned true) → ⊥
      distinct e = cc e

      over :
          (more : Bool) (s' : Scene F)
          → promote_next none s ≡ (returned more, s')
          → Finished ((if more then promote_while fuel limit else give true) s')
      over false s' ran = refl
      over true s' ran = absurd (distinct (ap (λ r. r.0) ran))
  turn fuel limit s again enough (some place) e =
      let (l, waits) = first_waiting-WaitsAt s.deal.levels place e in
      then_do-cases (promote_next (some place)) _ s Finished (λ f s' _. tt)
        (λ more s' ran. went_on more s' (
          holds_at (Promoted s.deal.levels) _ more s'
            (rw (at-WaitsAt place l s.deal.levels waits) (next_turned place l s waits)) ran))
    where
      went_on :
          (more : Bool) (s' : Scene F)
          → Promoted s.deal.levels more s'
          → Finished ((if more then promote_while fuel limit else give true) s')
      went_on false s' fewer = refl
      went_on true s' fewer = again s' (omega (arith, fewer, enough))

  enough_fuel :
      (fuel limit : ℕ) (s : Scene F)
      → waiting_count s.deal.levels < fuel
      → Finished (promote_while fuel limit s)
  unfolding promote_while Finished
  enough_fuel zero limit s h = absurd (none_below h)
    where
      none_below : waiting_count s.deal.levels < zero → ⊥
      none_below q = omega (arith, q)
  enough_fuel (suc fuel) limit s h = elim (Bool-cases (ltb (working_level_count s) limit)) [
    | inl room ↦ rw room (
        turn fuel limit s (λ s' h'. enough_fuel fuel limit s' h') h (first_waiting s.deal.levels)
          refl)
    | inr busy ↦ rw busy refl
  ]

  -- The loop that promotes waiting levels always ends: it never uses up the fuel of one turn more than
  -- there are waiting levels, whatever the broker answers and other tasks do to the orders meanwhile.
  pub promote_waiting_levels-Finished : (s : Scene F) → Finished (promote_waiting_levels s)
  unfolding promote_waiting_levels Finished
  promote_waiting_levels-Finished s = elim (Bool-cases (is_closing s.deal.status)) [
    | inl closing ↦ rw closing refl
    | inr going ↦ rw going (limited s.deal.active_limit)
  ]
    where
      limited : (o : Option ℕ) → Finished (promote_to o s)
      limited none = refl
      limited (some limit) = enough_fuel (suc (waiting_count s.deal.levels)) limit s (omega arith)
