-- ===== src/Context/Memory.antt =====
-- hawkc_malloc, hawkc_calloc and hawkc_free of hawkc/common.c.
use hawkc.Base.{
  ℕ, if◌then◌else◌, ◌==◌, Bool, true, false, List, [], ◌∷◌, Option, none, some, suc, ◌≡◌, ◌⊎◌, inl,
  inr, Bool-cases, refl, ap, ◌∙◌, arith,
}
use mathlib.Core.Option
use hawkc.Context.{HawkcContext, Block}
use hawkc.Crypto.{Platform}

-- Is the pointer other than NULL?
abbrev pub is_set : {A : Type 0} → Option A → Bool
is_set none = false
is_set (some a) = true

abbrev next_number : List Block → ℕ
next_number [] = 0
next_number (b ∷ bs) = suc b.number

-- The block that is given out next: none that is given out has its number.
abbrev pub new_block : Bool → HawkcContext → Block
new_block own ctx = record { own = own; number = next_number ctx.blocks }

abbrev pub with_blocks : List Block → HawkcContext → HawkcContext
with_blocks bs ctx = record ctx { blocks = bs }

abbrev give_out : Bool → HawkcContext → Option Block × HawkcContext
give_out own ctx = let b = new_block own ctx in (some b, with_blocks (b ∷ ctx.blocks) ctx)

-- Which function answers, and whether with a block.
unfoldable pub malloc_answer : Platform → HawkcContext → ℕ → Bool
malloc_answer os ctx size = elim (ctx.malloc) [ none ↦ os.malloc size | some f ↦ f size ]

unfoldable pub calloc_answer : Platform → HawkcContext → ℕ → ℕ → Bool
calloc_answer os ctx count size = elim (ctx.calloc) [
  | none ↦ os.calloc count size
  | some f ↦ f count size
]

-- The result, `none` for NULL, and the context behind the call.
unfoldable pub malloc : Platform → HawkcContext → ℕ → Option Block × HawkcContext
malloc os ctx size =
    if malloc_answer os ctx size then give_out (is_set ctx.malloc) ctx else (none, ctx)

unfoldable pub calloc : Platform → HawkcContext → ℕ → ℕ → Option Block × HawkcContext
calloc os ctx count size =
    if calloc_answer os ctx count size then give_out (is_set ctx.calloc) ctx else (none, ctx)

abbrev same_owner : Bool → Bool → Bool
same_owner true b = b
same_owner false true = false
same_owner false false = true

-- A block that is not there (or no more) must not be given back, nor one to the C library's free
-- that the caller's own function has given, nor the other way round.
unfoldable pub give_back : Bool → Block → List Block → Option (List Block)
give_back own b [] = none
give_back own b (first ∷ bs) =
    let rest = give_back own b bs in
    if first.number == b.number
    then (if same_owner own first.own then some bs else none)
    else Option.map (◌∷◌ first) rest

unfoldable pub free : HawkcContext → Block → Option HawkcContext
free ctx b = Option.map (λ bs. with_blocks bs ctx) (give_back (is_set ctx.free) b ctx.blocks)

-- The last block can be given back, and then the others are left.
give_back_first :
    (own : Bool) (b : Block) (bs : List Block)
    → (give_back own b (b ∷ bs) ≡ some bs) ⊎ (give_back own b (b ∷ bs) ≡ none)
unfolding give_back
give_back_first own b bs =
    let this : (b.number == b.number) ≡ true = ground arith in
    elim (Bool-cases (same_owner own b.own)) [
      | inl same ↦ inl (rw (this, same) refl)
      | inr other ↦ inr (rw (this, other) refl)
    ]

-- Nothing but the list of blocks changes.
pub free_cases :
    (ctx : HawkcContext) (b : Block)
    → (free ctx b ≡ none) ⊎ ((bs : List Block) × (free ctx b ≡ some (with_blocks bs ctx)))
unfolding free
free_cases ctx b = left (give_back (is_set ctx.free) b ctx.blocks)
  where
    left :
        (o : Option (List Block))
        → let after = Option.map (λ bs. with_blocks bs ctx) o in
          (after ≡ none) ⊎ ((bs : List Block) × (after ≡ some (with_blocks bs ctx)))
    left none = inl refl
    left (some bs) = inr (bs, refl)

pub free_first :
    (b : Block) (bs : List Block) (ctx : HawkcContext)
    → ctx.blocks ≡ b ∷ bs
    → (free ctx b ≡ some (with_blocks bs ctx)) ⊎ (free ctx b ≡ none)
unfolding free
free_first b bs ctx is =
    let given = ap (give_back (is_set ctx.free) b) is in
    elim (give_back_first (is_set ctx.free) b bs) [
      | inl back ↦ inl (ap (Option.map (λ left. with_blocks left ctx)) (given ∙ back))
      | inr lost ↦ inr (ap (Option.map (λ left. with_blocks left ctx)) (given ∙ lost))
    ]

same_owner_refl : (own : Bool) → same_owner own own ≡ true
same_owner_refl true = refl
same_owner_refl false = refl

-- The last block is given back to the function of the same owner.
pub free-with_blocks :
    (b : Block) (bs : List Block) (ctx : HawkcContext)
    → is_set ctx.free ≡ b.own
    → free (with_blocks (b ∷ bs) ctx) b ≡ some (with_blocks bs ctx)
unfolding free give_back
free-with_blocks b bs ctx same =
    let this : (b.number == b.number) ≡ true = ground arith in
    rw (same, this, same_owner_refl b.own) refl
