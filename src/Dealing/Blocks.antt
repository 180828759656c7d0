-- ===== src/Dealing/Blocks.antt =====
-- When a bot may not open a deal, and which fills are lost: `open_deal`, `_fail_deal` and `pump` of
-- backend/app/trading/deal_manager.py.
use veles_moex.Common.{
  ℕ, ◌==◌, str, str_eq, Bool, true, false, ◌||◌, Option, none, some, List, [], ◌∷◌, ◌++◌, is_some,
  if◌then◌else◌,
}
use veles_moex.Dict
use veles_moex.Decimal.{Context}
use veles_moex.Domain.{InternalOrder, Fill}
use veles_moex.Strategies.{Floats}
use veles_moex.Deals.Store.{Deal}
use veles_moex.Dealing.{
  DealManager, DealFailure, Surroundings, Scene, Ran, returned, raised, later, deal_blocked,
}
use veles_moex.Dealing.Failures.{fail_deal, fail_entry}
use veles_moex.Common.{◌≡◌, ◌∙◌, refl, ap, arith, inl, inr, Bool-cases, member, eq_refl}
use veles_moex.Dict.{Dict}
use veles_moex.Strategies.{Powers}
use veles_moex.Dealing.Failures.{block_bot, notify_bot_error}
use veles_moex.Dealing.Opening.{Entry, refused_entry, enter, conclude_entry, open_deal}

-- What other tasks do during an await does not lift the block of the bot.
pub record KeepsBlock {F : Type 0} (env : Surroundings F) (bot : ℕ) : Type 0 where
  pub kept :
      (n : ℕ) (w : DealManager F)
      → member ◌==◌ bot w.blocked ≡ true
      → member ◌==◌ bot ((env.moment n).meanwhile w).blocked ≡ true

or_true : (b : Bool) → b || true ≡ true
or_true true = refl
or_true false = refl

or_left : (a b : Bool) → a ≡ true → a || b ≡ true
or_left a b h = rw h refl

module _ {F : Type 0} ⦃env : Surroundings F⦄ where
  blocked-block_bot :
      (bot : ℕ) (f : DealFailure) (w : DealManager F)
      → KeepsBlock env bot
      → member ◌==◌ bot (block_bot (some bot) f w).blocked ≡ true
  unfolding block_bot notify_bot_error
  blocked-block_bot bot f w keeps = reported w.reports_errors
    where
      blocked_now : DealManager F
      blocked_now = record w { blocked = bot ∷ w.blocked; errors = Dict.put w.errors (str bot) f }

      told : DealManager F
      told = record blocked_now { bot_errors = w.bot_errors ++ (bot, f) ∷ [] }

      in_front : member ◌==◌ bot (bot ∷ w.blocked) ≡ true
      in_front = ground arith

      reported : (b : Bool) → member ◌==◌ bot (if b then later told else blocked_now).blocked ≡ true
      reported true = keeps.kept _ _ in_front
      reported false = in_front

  refused-conclude_entry :
      (bot : ℕ) (r : Ran (Unit {0}) × Scene F)
      → KeepsBlock env bot
      → refused_entry bot (conclude_entry bot r).1 ≡ true
  unfolding conclude_entry fail_deal
  refused-conclude_entry bot (returned u, s) keeps =
      registered (member ◌==◌ bot s.manager.blocked) _
        (Dict.get-put s.manager.deals (str bot) (str bot) s.deal)
    where
      registered :
          (b : Bool) (o : Option (Deal F))
          → o ≡ (
              if str_eq (str bot) (str bot)
              then some s.deal
              else Dict.get s.manager.deals (str bot))
          → b || is_some o ≡ true
      registered b o e = rw (e, eq_refl (str bot)) (or_true b)
  refused-conclude_entry bot (raised f, s) keeps = or_left _ _ (blocked-block_bot bot _ _ keeps)

  refused-enter :
      (bot : ℕ) (r : Ran (Deal F)) (w : DealManager F)
      → KeepsBlock env bot
      → refused_entry bot (enter bot r w).1 ≡ true
  unfolding enter fail_entry
  refused-enter bot (returned d) w keeps = refused-conclude_entry bot _ keeps
  refused-enter bot (raised f) w keeps = or_left _ _ (blocked-block_bot bot _ _ keeps)

module _ {F G : Type 0} ⦃ctx : Context⦄ ⦃fl : Floats F⦄ ⦃powers : Powers⦄
    ⦃env : Surroundings F⦄ where
  refused_by :
      (e : Entry F G) (w : DealManager F)
      → refused_entry e.bot_id w ≡ true
      → open_deal e w ≡ (raised deal_blocked, w)
  unfolding open_deal
  refused_by e w h = rw h refl

  refused-open_deal :
      (e : Entry F G) (w : DealManager F)
      → KeepsBlock env e.bot_id
      → refused_entry e.bot_id (open_deal e w).1 ≡ true
  unfolding open_deal
  refused-open_deal e w keeps = elim (Bool-cases (refused_entry e.bot_id w)) [
    | inl refused ↦ rw refused refused
    | inr free ↦ rw free (refused-enter e.bot_id _ w keeps)
  ]

  -- Behind any call to open a deal, whether it returned one, failed on the way or was refused, the bot
  -- is refused a deal: another call with whatever arguments raises at once and changes nothing, if other
  -- tasks do not lift the block of the bot during the waits.
  pub one_deal_per_bot :
      (e e' : Entry F G) (w : DealManager F)
      → KeepsBlock env e.bot_id
      → e'.bot_id ≡ e.bot_id
      → open_deal e' (open_deal e w).1 ≡ (raised deal_blocked, (open_deal e w).1)
  one_deal_per_bot e e' w keeps same =
      refused_by e' (open_deal e w).1
        (ap (λ bot. refused_entry bot (open_deal e w).1) same ∙ refused-open_deal e w keeps)

module _ {F : Type 0} where
  -- Fills of bots that have no deal in the manager.
  pub data Unregistered (deals : Dict (Deal F)) : List (InternalOrder × Fill) → Type 0 where
    nil : Unregistered deals []
    cons :
        {o : InternalOrder} {f : Fill} {bot : ℕ} {events : List (InternalOrder × Fill)}
        → o.bot_id ≡ some bot
        → Dict.get deals (str bot) ≡ none
        → Unregistered deals events
        → Unregistered deals ((o, f) ∷ events)
