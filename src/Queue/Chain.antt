-- ===== src/Queue/Chain.antt =====
-- The linked elements of a queue in memory, what they stand for, and the addresses they take up.
use cmu.Common.{
  ◌+◌, update, update_ne, ==-false, subst, sym, ◌∙◌, ℕ, ◌≡◌, refl, ◌≢◌, Bool, true, false, ◌||◌,
  Option, none, some, List, [], ◌∷◌, ◌++◌, arith, ◌==◌, length,
}
use cmu.Queue.{load, load_str, set_next, free, ok, C, ◌>>◌, Text, Block, ele, str, Memory, Queue}

-- An element with the addresses of its two blocks and its text.
pub record Cell : Type 0 where
  pub at : ℕ
  pub value : ℕ
  pub text : Text

abbrev pub first : List Cell → ℕ → ℕ
first [] stop = stop
first (c ∷ cs) stop = c.at

abbrev pub last_at : List Cell → ℕ → ℕ
last_at [] p = p
last_at (c ∷ cs) p = last_at cs c.at

abbrev pub owns : Cell → ℕ → Bool
owns c a = (a == c.at) || (a == c.value)

-- Whether an address is one of a block of these elements.
abbrev pub has : ℕ → List Cell → Bool
has a [] = false
has a (c ∷ cs) = owns c a || has a cs

-- From the first element the pointers lead through the elements, at distinct addresses, to `stop`.
abbrev pub Chain : Memory → ℕ → List Cell → Type 0
Chain m stop [] = Unit {0}
Chain m stop (c ∷ cs) =
    (c.at ≢ 0)
    × (c.value ≢ 0)
    × (m c.at ≡ some (ele c.value (first cs stop)))
    × (m c.value ≡ some (str c.text))
    × (has c.at cs ≡ false)
    × (has c.value cs ≡ false)
    × Chain m stop cs

-- A queue in memory stands for the elements `cs`. Of an empty queue the tail may be anything.
pub record IsQueue (m : Memory) (q : Queue) (cs : List Cell) : Type 0 where
  pub head : q.head ≡ first cs 0
  pub tail : cs ≢ [] → q.tail ≡ last_at cs 0
  pub size : q.size ≡ length cs
  pub chain : Chain m 0 cs

-- The two memories agree except at the addresses of `cs`.
abbrev pub SameOutside : List Cell → Memory → Memory → Type 0
SameOutside cs m g = (a : ℕ) → has a cs ≡ false → g a ≡ m a

pub at-ne-value :
    (m : Memory) (stop : ℕ) (c : Cell) (cs : List Cell) → Chain m stop (c ∷ cs) → c.at ≢ c.value
at-ne-value m stop c cs ch e = clash (subst (λ a. m a ≡ some (str c.text)) (sym e) ch.3) ch.2
  where
    clash : {o : Option Block} {v n : ℕ} {t : Text} → o ≡ some (str t) → o ≡ some (ele v n) → ⊥
    clash p q = cc

-- A chain survives a change of memory that spares its own addresses.
pub frame :
    (m : Memory) (stop : ℕ) (g : Memory) (cs : List Cell)
    → Chain m stop cs
    → ((a : ℕ) → has a cs ≡ true → g a ≡ m a)
    → Chain g stop cs
frame m stop g [] ch same = tt
frame m stop g (c ∷ cs) ch same = (
  ch.0,
  ch.1,
  same c.at (ground arith) ∙ ch.2,
  same c.value (ground arith) ∙ ch.3,
  ch.4,
  ch.5,
  frame m stop g cs ch.6 (λ a h. same a (ground arith)),
)

-- An address with nothing at it is none of a chain's.
pub not-has_of_none :
    (m : Memory) (stop : ℕ) (a : ℕ) (cs : List Cell)
    → Chain m stop cs
    → m a ≡ none
    → has a cs ≡ false
not-has_of_none m stop a [] ch e = refl
not-has_of_none m stop a (c ∷ cs) ch e = ground (arith, not-has_of_none m stop a cs ch.6 e)

-- Nor is the null pointer.
pub not-has_zero : (m : Memory) (stop : ℕ) (cs : List Cell) → Chain m stop cs → has 0 cs ≡ false
not-has_zero m stop [] ch = refl
not-has_zero m stop (c ∷ cs) ch = ground (arith, not-has_zero m stop cs ch.6)

pub length-snoc : (cs : List Cell) (c : Cell) → length (cs ++ c ∷ []) ≡ length cs + 1
length-snoc [] c = omega arith
length-snoc (d ∷ cs) c = omega (arith, length-snoc cs c)

pub last_at-snoc : (cs : List Cell) (c : Cell) (p : ℕ) → last_at (cs ++ c ∷ []) p ≡ c.at
last_at-snoc [] c p = refl
last_at-snoc (d ∷ cs) c p = last_at-snoc cs c d.at

pub has-append : (a : ℕ) (cs ds : List Cell) → has a (cs ++ ds) ≡ (has a cs || has a ds)
has-append a [] ds = refl
has-append a (c ∷ cs) ds = ground (arith, has-append a cs ds)

-- Reads and writes at the first element of a chain.
module _ (m : Memory) (stop : ℕ) (c : Cell) (cs : List Cell) (ch : Chain m stop (c ∷ cs)) where
  pub load-first : load c.at m ≡ ok (c.value, first cs stop) m
  unfolding load
  load-first = rw ch.2

  pub load_str-first : load_str c.value m ≡ ok c.text m
  unfolding load_str
  load_str-first = rw ch.3

  pub set_next-first : (n : ℕ) → set_next c.at n m ≡ ok tt (update m c.at (some (ele c.value n)))
  unfolding set_next
  set_next-first n = rw load-first

  -- `free(temp->value); free(temp);`
  pub free-first :
      {A : Type 0} (k : C A)
      → (free c.value >> (free c.at >> k)) m ≡ k (update (update m c.value none) c.at none)
  unfolding free
  free-first k = rw (
    ==-false c.value 0 ch.1,
    ch.3,
    ==-false c.at 0 ch.0,
    update_ne m c.value c.at none (λ e. at-ne-value m stop c cs ch (sym e)),
    ch.2,
  )

pub first-snoc : (cs : List Cell) (c : Cell) → first (cs ++ c ∷ []) 0 ≡ first cs c.at
first-snoc [] c = refl
first-snoc (d ∷ cs) c = refl
