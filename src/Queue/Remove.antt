-- ===== src/Queue/Remove.antt =====
-- q_remove_head of cprogramminglab-handout/queue.c.
use cmu.Common.{
  not, ◌&&◌, ℕ, suc, ◌-◌, ◌<◌, ◌≡◌, refl, ◌≢◌, ◌∙◌, sym, ap, Bool, true, false, Option, none, some,
  List, [], ◌∷◌, arith, ◌==◌, length, update, update_self, ==-false, if◌then◌else◌, take,
}
use cmu.Queue.{◌>>=◌, pure, Text, Memory, Queue, ok, fault, q_remove_head, q_insert_tail, copy_out}
use cmu.Queue.Chain.{
  Cell, first, last_at, owns, Chain, IsQueue, SameOutside, frame, load-first, load_str-first,
  free-first,
}
use cmu.Queue.Insert.{Ensures, Holds, q_insert_tail-dangling}

-- The memory after both blocks of an element have been freed.
abbrev pub without : Memory → Cell → Memory
without m c = update (update m c.value none) c.at none

pub without-other : (m : Memory) (c : Cell) (a : ℕ) → owns c a ≡ false → without m c a ≡ m a
without-other m c a h = ground arith

pub without-Chain :
    (m : Memory) (stop : ℕ) (c : Cell) (cs : List Cell)
    → Chain m stop (c ∷ cs)
    → Chain (without m c) stop cs
without-Chain m stop c cs ch =
    frame m stop (without m c) cs ch.6 λ a h. without-other m c a (ground (arith, ch.4, ch.5))

-- What the caller's buffer is told: nothing at a null `sp`, and else the string cut to the buffer.
abbrev pub copied : Bool → ℕ → Text → Option Text
copied false bufsize t = none
copied true bufsize t = some (take (bufsize - 1) t)

last_at-ne : (cs : List Cell) (p : ℕ) → cs ≢ [] → last_at cs p ≡ last_at cs 0
last_at-ne [] p ne = absurd (ne refl)
last_at-ne (c ∷ cs) p ne = refl

copy_lem :
    (out : Bool) (bufsize : ℕ) (m : Memory) (c : Cell) (cs : List Cell)
    → Chain m 0 (c ∷ cs)
    → (out ≡ true → 0 < bufsize)
    → (if out && not (c.value == 0) then copy_out c.value bufsize else pure none) m
      ≡ ok (copied out bufsize c.text) m
unfolding copy_out
copy_lem false bufsize m c cs ch room = refl
copy_lem true bufsize m c cs ch room = rw (
  ==-false c.value 0 ch.1,
  load_str-first m 0 c cs ch,
  ==-false bufsize 0 (λ e. omega (arith, room refl)),
)

-- The whole effect on a queue that holds a string.
q_remove_head-cons :
    (m : Memory) (q : Queue) (c : Cell) (cs : List Cell) (out : Bool) (bufsize : ℕ)
    → IsQueue m q (c ∷ cs)
    → (out ≡ true → 0 < bufsize)
    → q_remove_head out bufsize (some q) m
      ≡ ok
          (true, copied out bufsize c.text, some (record q { head = first cs 0; size = length cs }))
          (without m c)
unfolding q_remove_head
q_remove_head-cons m q c cs out bufsize is room =
    rw
      (
        is.size,
        ==-false (suc (length cs)) 0 (omega arith),
        is.head,
        load-first m 0 c cs is.chain,
        copy_lem out bufsize m c cs is.chain room,
        free-first m 0 c cs is.chain (pure {A = Bool × Option Text × Option Queue} result),
      )
      (ap
        (λ n.
          ok (true, copied out bufsize c.text, some (record q { head = first cs 0; size = n }))
            (without m c))
        (omega arith))
  where
    result : Bool × Option Text × Option Queue
    result = (
      true,
      copied out bufsize c.text,
      some (record q { head = first cs 0; size = suc (length cs) - 1 }),
    )

-- On a queue that holds a string, and a buffer of at least one byte if there is one, q_remove_head
-- returns true and the first string, cut to bufsize - 1 characters; the queue then holds the others,
-- both blocks of the first element are free, and no other memory changes.
pub q_remove_head_lem :
    (m : Memory) (q : Queue) (c : Cell) (cs : List Cell) (out : Bool) (bufsize : ℕ)
    → IsQueue m q (c ∷ cs)
    → (out ≡ true → 0 < bufsize)
    → Ensures
        (λ (done, text, q') g.
          (done ≡ true)
          × (text ≡ copied out bufsize c.text)
          × Holds cs g q'
          × (g c.at ≡ none)
          × (g c.value ≡ none)
          × SameOutside (c ∷ []) m g)
        (q_remove_head out bufsize (some q) m)
q_remove_head_lem m q c cs out bufsize is room =
    rw (q_remove_head-cons m q c cs out bufsize is room) (
      refl,
      refl,
      record {
        head = refl;
        tail = λ ne. is.tail (λ e. cc) ∙ last_at-ne cs c.at ne;
        size = refl;
        chain = without-Chain m 0 c cs is.chain;
      },
      update_self (update m c.value none) c.at none,
      ground arith,
      λ a h. without-other m c a (ground arith),
    )

-- A null queue and an empty one give false, and nothing changes.
pub q_remove_head-empty :
    (m : Memory) (q : Queue) (out : Bool) (bufsize : ℕ)
    → IsQueue m q []
    → q_remove_head out bufsize (some q) m ≡ ok (false, none, some q) m
unfolding q_remove_head
q_remove_head-empty m q out bufsize is = rw is.size

-- Removing the last string leaves the tail pointer at the freed element, since q_remove_head does not
-- set it. The next q_insert_tail writes through it and faults, unless malloc gives that very address
-- again.
pub q_insert_tail-drained :
    (m : Memory) (q : Queue) (c d : Cell) (out : Bool) (bufsize : ℕ)
    → IsQueue m q (c ∷ [])
    → (out ≡ true → 0 < bufsize)
    → d.at ≢ 0
    → d.value ≢ 0
    → d.at ≢ c.at
    → d.value ≢ c.at
    → (q_remove_head out bufsize (some q) >>= λ r. q_insert_tail d.at d.value r.2 d.text) m ≡ fault
q_insert_tail-drained m q c d out bufsize is room ne ne' apart apart' =
    let tail : q.tail ≡ c.at = is.tail (λ e. cc) in
    let gone : without m c q.tail ≡ none =
      rw tail (update_self (update m c.value none) c.at none) in
    rw (q_remove_head-cons m q c [] out bufsize is room) (
      q_insert_tail-dangling (without m c) (record q { head = 0; size = 0 }) d ne ne' gone
        (λ e. apart (sym e ∙ tail)) (λ e. apart' (sym e ∙ tail)))
