-- ===== src/Cache.antt =====
-- The object cache of the proxy, proxylab-s20-bhxxzp/cache.c, as one thread uses it. The two sentinels
-- and the nodes are blocks at addresses, 0 is the null pointer; a node holds its key and its value.
-- `Malloc` of csapp.c gives memory or ends the process, so its answer is an address, an argument. The
-- lock of get_value and write_node is left out.
pub mod Links
pub mod Lookup
pub mod Write
pub mod Ends
mod Tests
use cmu.Common.{
  ℕ, zero, suc, ◌+◌, ◌-◌, ◌%◌, ◌^◌, Bool, true, false, Option, none, some, List, [], ◌∷◌, ◌&&◌,
  ◌==◌, leb, if◌then◌else◌, update, take,
}

abbrev pub Text : Type 0
Text = List ℕ

-- `list_node`; the sentinels have no key and no value.
pub record Node : Type 0 where
  pub node_size : ℕ
  pub key : Option Text
  pub value : Text
  pub next : ℕ
  pub prev : ℕ

-- `DLlist`, and the blocks that are allocated.
pub record Store : Type 0 where
  pub mem : ℕ → Option Node
  pub list_size : ℕ
  pub head : ℕ
  pub tail : ℕ

-- `fault` is a read, write or free of memory that is not there.
pub data Run (A : Type 0) : Type 0 where
  ok : A → Store → Run A
  fault out_of_fuel : Run A

abbrev pub C : Type 0 → Type 0
C A = Store → Run A

abbrev pub pure : {A : Type 0} → A → C A
pure = ok

module _ {A B : Type 0} where
  abbrev pub and_then : Run A → (A → C B) → Run B
  and_then (ok a m) k = k a m
  and_then fault k = fault
  and_then out_of_fuel k = out_of_fuel

  infixl 5 ◌>>=◌ ◌>>◌
  abbrev pub ◌>>=◌ : C A → (A → C B) → C B
  r >>= k = λ s. and_then (r s) k

  abbrev pub ◌>>◌ : C A → C B → C B
  r >> k = r >>= λ _. k

abbrev pub max_cache_size : ℕ
max_cache_size = 1048576

abbrev pub at_node : Option Node → Store → Run Node
at_node none s = fault
at_node (some n) s = ok n s

unfoldable pub load : ℕ → C Node
load p s = at_node (s.mem p) s

abbrev pub put : ℕ → Option Node → C (Unit {0})
put p n s = ok tt (record s { mem = update s.mem p n })

-- `p->next = q` and `p->prev = q`
unfoldable pub set_next : ℕ → ℕ → C (Unit {0})
set_next p q = do n ← load p; put p (some (record n { next = q }))

unfoldable pub set_prev : ℕ → ℕ → C (Unit {0})
set_prev p q = do n ← load p; put p (some (record n { prev = q }))

-- `Free(p)`
unfoldable pub free : ℕ → C (Unit {0})
free p = if p == 0 then pure tt else do n ← load p; put p none

abbrev pub empty_node : Node
empty_node = record { node_size = 0; key = none; value = []; next = 0; prev = 0 }

-- `init_cache`, whose two sentinels are at `head` and `tail`.
unfoldable pub init_cache : (head tail : ℕ) → (ℕ → Option Node) → Run (Unit {0})
init_cache head tail mem =
    (put head (some empty_node)
        >> put tail (some empty_node)
        >> set_next head tail
        >> set_prev tail head)
      (record { mem = mem; list_size = 0; head = head; tail = tail })

-- `node->prev->next = node->next; node->next->prev = node->prev;`
unfoldable pub unlink : ℕ → C (Unit {0})
unlink p = do n ← load p; set_next n.prev n.next; n' ← load p; set_prev n'.next n'.prev

-- The same two writes in the order of `find_node`.
unfoldable pub detach : ℕ → C (Unit {0})
detach p = do n ← load p; set_prev n.next n.prev; n' ← load p; set_next n'.prev n'.next

-- `list->list_size -= node->node_size` on a `size_t`.
unfoldable pub shrink : ℕ → C (Unit {0})
shrink p = do
  n ← load p
  λ s. ok tt (record s { list_size = (s.list_size + 2 ^ 64 - n.node_size) % 2 ^ 64 })

unfoldable pub delete_node : ℕ → C (Unit {0})
delete_node p = shrink p >> unlink p >> free p

-- `head->next->prev = p; p->next = head->next; head->next = p; p->prev = head;`
unfoldable pub link_front : ℕ → C (Unit {0})
link_front p s =
    (do
      h ← load s.head
      set_prev h.next p
      h' ← load s.head
      set_next p h'.next
      set_next s.head p
      set_prev p s.head)
      s

abbrev pub text_eq : Text → Text → Bool
text_eq [] [] = true
text_eq [] (d ∷ u) = false
text_eq (c ∷ t) [] = false
text_eq (c ∷ t) (d ∷ u) = c == d && text_eq t u

-- `strcmp(key, p->key) == 0`, which reads through the null pointer at a sentinel.
unfoldable pub same_key : Text → Option Text → C Bool
same_key key none = λ s. fault
same_key key (some k) = pure (text_eq key k)

-- The loop of `find_node` and of `write_node`: the node with the key, 0 if there is none.
unfoldable pub search : ℕ → Text → ℕ → C ℕ
search zero key p s = out_of_fuel
search (suc fuel) key p s =
    if p == s.tail
    then ok 0 s
    else (do
      n ← load p
      hit ← same_key key n.key
      elim hit [ true ↦ pure p | false ↦ search fuel key n.next ])
        s

-- `find_node`; more rounds than `fuel` are `out_of_fuel`.
unfoldable pub find_node : ℕ → Text → C ℕ
find_node fuel key s =
    (do
      h ← load s.head
      p ← search fuel key h.next
      if p == 0 then pure 0 else (detach p >> link_front p >> pure p))
      s

-- The value and the size that `get_value` gives, if the key is there.
unfoldable pub get_value : ℕ → Text → C (Option (Text × ℕ))
get_value fuel key = do
  p ← find_node fuel key
  if p == 0 then pure none else do n ← load p; pure (some (n.value, n.node_size))

-- `list->list_size += new_node->node_size`, and the node in front.
unfoldable pub add_front : ℕ → ℕ → C (Unit {0})
add_front p size s = link_front p (record s { list_size = (s.list_size + size) % 2 ^ 64 })

-- `while (lastone)` of `write_node`.
unfoldable pub evict : ℕ → (new size lastone : ℕ) → C (Unit {0})
evict zero new size lastone = λ s. out_of_fuel
evict (suc fuel) new size lastone = if lastone == 0 then pure tt else do
  n ← load lastone
  delete_node lastone
  λ s.
      (if leb ((s.list_size + size) % 2 ^ 64) max_cache_size
          then add_front new size
          else evict fuel new size n.prev)
        s

-- `write_node`, whose new node is at `new`; `value` is what the memory holds from the given address on,
-- of which `create_node` copies `size` bytes.
unfoldable pub write_node : ℕ → (new : ℕ) → (key value : Text) → (size : ℕ) → C (Unit {0})
write_node fuel new key value size s =
    (do
      h ← load s.head
      p ← search fuel key h.next
      if p == 0
          then (do
            put new (
                some (record {
                  node_size = size;
                  key = some key;
                  value = take size value;
                  next = 0;
                  prev = 0;
                }))
            λ s'.
                (if leb ((s'.list_size + size) % 2 ^ 64) max_cache_size
                    then add_front new size
                    else (do t ← load s'.tail; evict fuel new size t.prev))
                  s')
          else pure tt)
      s

-- `while (temp)` of `free_list`.
unfoldable pub free_loop : ℕ → ℕ → C (Unit {0})
free_loop zero temp = λ s. out_of_fuel
free_loop (suc fuel) temp =
    if temp == 0 then pure tt else do n ← load temp; delete_node temp; free_loop fuel n.next

unfoldable pub free_list : ℕ → C (Unit {0})
free_list fuel s = (do h ← load s.head; free_loop fuel h.next; free s.head; free s.tail) s
