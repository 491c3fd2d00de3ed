-- ===== src/Queue.antt =====
-- The string queue of cprogramminglab-handout/queue.c over an explicit memory. A `queue_t` is a record
-- that each function takes and gives back (`none` is the null pointer); elements and strings are
-- blocks at addresses. What `malloc` answers is an argument, 0 for the null pointer.
pub mod Chain
pub mod Insert
pub mod Remove
pub mod Reverse
pub mod Free
mod Tests
use cmu.Common.{
  ℕ, zero, suc, ◌+◌, ◌-◌, Bool, true, false, not, ◌&&◌, ◌||◌, Option, none, some, List, [], ◌∷◌,
  ◌==◌, leb, if◌then◌else◌, update, take,
}

-- A C string, the terminator left out.
abbrev pub Text : Type 0
Text = List ℕ

-- What a `malloc`ed block holds: a `list_ele_t` (the addresses in its two fields) or a string.
pub data Block : Type 0 where
  ele : ℕ → ℕ → Block
  str : Text → Block

-- `none` at an address that is not allocated.
abbrev pub Memory : Type 0
Memory = ℕ → Option Block

-- `queue_t`
pub record Queue : Type 0 where
  pub head : ℕ
  pub tail : ℕ
  pub size : ℕ

-- `fault` is a read, write or free of memory that is not there.
pub data Run (A : Type 0) : Type 0 where
  ok : A → Memory → Run A
  fault out_of_fuel : Run A

abbrev pub C : Type 0 → Type 0
C A = Memory → Run A

abbrev pub pure : {A : Type 0} → A → C A
pure = ok

module _ {A B : Type 0} where
  abbrev pub and_then : Run A → (A → C B) → Run B
  and_then (ok a m) k = k a m
  and_then fault k = fault
  and_then out_of_fuel k = out_of_fuel

  infixl 5 ◌>>=◌ ◌>>◌
  abbrev pub ◌>>=◌ : C A → (A → C B) → C B
  r >>= k = λ m. and_then (r m) k

  abbrev pub ◌>>◌ : C A → C B → C B
  r >> k = r >>= λ _. k

abbrev pub Ele : Type 0
Ele = ℕ × ℕ

abbrev pub as_ele : Option Block → Memory → Run Ele
as_ele none m = fault
as_ele (some (ele v n)) m = ok (v, n) m
as_ele (some (str t)) m = fault

abbrev pub as_str : Option Block → Memory → Run Text
as_str none m = fault
as_str (some (ele v n)) m = fault
as_str (some (str t)) m = ok t m

-- The fields `value` and `next` of the element at `p`.
unfoldable pub load : ℕ → C Ele
load p m = as_ele (m p) m

unfoldable pub load_str : ℕ → C Text
load_str p m = as_str (m p) m

abbrev pub store : ℕ → Block → C (Unit {0})
store p b m = ok tt (update m p (some b))

-- `p->next = n`
unfoldable pub set_next : ℕ → ℕ → C (Unit {0})
set_next p n = do (v, _) ← load p; store p (ele v n)

abbrev pub freed : ℕ → Option Block → Memory → Run (Unit {0})
freed p none m = fault
freed p (some b) m = ok tt (update m p none)

-- `free(p)`, which does nothing at the null pointer.
unfoldable pub free : ℕ → C (Unit {0})
free p m = if p == 0 then ok tt m else freed p (m p) m

-- `q_new`; the argument says whether `malloc` gives the memory.
unfoldable pub q_new : Bool → Option Queue
q_new room = if room then some (record { head = 0; tail = 0; size = 0 }) else none

-- `newh` and `value` are the answers of the two calls of `malloc`. If the second fails, the first block
-- holds the null pointer that it has answered when it is freed.
unfoldable pub q_insert_head : (newh value : ℕ) → Option Queue → Text → C (Bool × Option Queue)
q_insert_head newh value none s = pure (false, none)
q_insert_head newh value (some q) s =
    if newh == 0
    then (free newh >> pure (false, some q))
    else if value == 0
    then (do store newh (ele value 0); free value; free newh; pure (false, some q))
    else do
      store value (str s)
      store newh (ele value q.head)
      pure (
        true,
        some (record {
          head = newh;
          tail = if q.size == 0 then newh else q.tail;
          size = q.size + 1;
        }),
      )

unfoldable pub q_insert_tail : (newt value : ℕ) → Option Queue → Text → C (Bool × Option Queue)
q_insert_tail newt value none s = pure (false, none)
q_insert_tail newt value (some q) s =
    if newt == 0
    then (free newt >> pure (false, some q))
    else if value == 0
    then (do store newt (ele value 0); free value; free newt; pure (false, some q))
    else do
      store value (str s)
      store newt (ele value 0)
      set_next q.tail newt
      pure (
        true,
        some (record {
          head = if q.size == 0 then newt else q.head;
          tail = newt;
          size = q.size + 1;
        }),
      )

-- `strncpy(sp, value, bufsize-1); sp[bufsize-1] = 0` into a buffer of `bufsize` bytes: the string
-- that `sp` then holds. At 0 the index wraps round, and the write is out of the buffer.
unfoldable pub copy_out : ℕ → ℕ → C (Option Text)
copy_out value bufsize = do
  t ← load_str value
  if bufsize == 0 then (λ m. fault) else pure (some (take (bufsize - 1) t))

-- `out` says whether `sp` is not null; the text is what it then holds.
unfoldable pub q_remove_head :
    (out : Bool) → (bufsize : ℕ) → Option Queue → C (Bool × Option Text × Option Queue)
q_remove_head out bufsize none = pure (false, none, none)
q_remove_head out bufsize (some q) = if q.size == 0 then pure (false, none, some q) else do
  (value, next) ← load q.head
  text ← if out && not (value == 0) then copy_out value bufsize else pure none
  free value
  free q.head
  pure (true, text, some (record q { head = next; size = q.size - 1 }))

unfoldable pub q_size : Option Queue → ℕ
q_size none = 0
q_size (some q) = if q.size == 0 then 0 else q.size

-- `while (temp != NULL) { last = temp->next; temp->next = pre; pre = temp; temp = last; }`
unfoldable pub reverse_loop : ℕ → (pre temp : ℕ) → C ℕ
reverse_loop zero pre temp = λ m. out_of_fuel
reverse_loop (suc k) pre temp =
    if temp == 0
    then pure pre
    else do (_, last) ← load temp; set_next temp pre; reverse_loop k temp last

unfoldable pub q_reverse : Option Queue → C (Option Queue)
q_reverse none = pure none
q_reverse (some q) = if leb q.size 1 then pure (some q) else do
  (_, temp) ← load q.head
  pre ← reverse_loop q.size q.head temp
  set_next q.head 0
  pure (some (record q { head = pre; tail = q.head }))

unfoldable pub free_loop : ℕ → ℕ → C (Unit {0})
free_loop zero temp = λ m. out_of_fuel
free_loop (suc k) temp =
    if temp == 0
    then pure tt
    else do (value, point) ← load temp; free value; free temp; free_loop k point

-- `q_free`, which leaves no queue.
unfoldable pub q_free : Option Queue → C (Unit {0})
q_free none = pure tt
q_free (some q) = free_loop (q.size + 1) q.head
