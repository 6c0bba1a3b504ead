-- ===== src/Pbuf/Pool.antt =====
-- The pool of src/pbuf.c: entries in a list of free ones and a list of used ones, under a mutex,
-- and counted references. An entry, its list node and its buffer have one number.
pub mod Lists
pub mod Start
pub mod Copy
pub mod History
use libckit.Common.{
  ℕ, zero, suc, ◌+◌, ◌*◌, ◌%◌, ◌^◌, ◌==◌, ◌&&◌, ◌||◌, leb, ltb, Bool, true, false, List, [], ◌∷◌,
  Option, none, some, if◌then◌else◌, length,
}
use libckit.Common.Int.{ℤ, pos, negsuc}
use libckit.Common.Arrays.{copy_prefix}
use libckit.Common.Run.{Run, ok, fault, ◌>>=◌, ◌>>◌, assert}
use libckit.Atomic.{dec_and_test}
use libckit.NodeList
use libckit.NodeList.{Nodes, Node}
use libckit.Pbuf.{Pbuf, max_size, head_inside}

abbrev pub min_pool_size : ℕ
min_pool_size = 20

-- the anchors
abbrev pub free_list : ℕ
free_list = 0

abbrev pub use_list : ℕ
use_list = 1

-- `given_back` are the blocks that went back to the system; that one is used after that is not
-- found out here.
pub record Pool : Type 0 where
  pub nodes : Nodes
  pub bufs : ℕ → Pbuf
  pub locked : Bool
  pub objects : Option ℕ
  pub given_back : List ℕ

abbrev mem : ℕ → List ℕ → Bool
mem x [] = false
mem x (y ∷ ys) = x == y || mem x ys

abbrev pub zeros : ℕ → List ℕ
zeros zero = []
zeros (suc n) = 0 ∷ zeros n

-- all bytes 0, up to the end of the entry
abbrev pub zero_pbuf : Pbuf
zero_pbuf = record {
  refcount = pos 0;
  ifindex = 0;
  cb = zeros 20;
  alloc_len = 0;
  len = 0;
  data_at = 0;
  tail = 0;
  end = 0;
  link_offset = 0;
  network_offset = 0;
  transport_offset = 0;
  payload_offset = 0;
  head = zeros (head_inside + max_size);
}

-- the loop of pbuf_pool_init, from entry `e` on, for `n` entries
pub add_entries : ℕ → ℕ → Nodes → Nodes
add_entries zero e s = s
add_entries (suc n) e s = add_entries n (suc e) (NodeList.add_back free_list e s)

-- pbuf_pool_init from calloc on, of `n` entries; `calloc` returns the number of the first one.
pub add_objects : ℕ → Option ℕ → Pool → ℤ × Pool
add_objects n none p = (negsuc 0, record p { objects = none })
add_objects n (some objects) p = (
  pos 0,
  record p {
    objects = some objects;
    nodes = add_entries n objects p.nodes;
    bufs = λ e. if leb objects e && ltb e (objects + n) then zero_pbuf else p.bufs e;
  },
)

pub pool_init : (ℕ → Option ℕ) → ℕ → Pool → ℤ × Pool
pool_init calloc pool_size p =
    let n = if ltb pool_size min_pool_size then min_pool_size else pool_size in
    add_objects n (calloc n) p

-- The block goes back, and the rest stays; the free of NULL does nothing, and that of a block that
-- went back already is a fault.
pub pool_cleanup : Pool → Run Pool
pool_cleanup p = elim p.objects [
  | none ↦ ok p
  | some objects ↦
      if mem objects p.given_back
      then fault
      else ok (record p { given_back = objects ∷ p.given_back })
]

-- `*pb = new`
abbrev pub write_buf : ℕ → Pbuf → Pool → Pool
write_buf e new p = record p { bufs = λ q. if e == q then new else p.bufs q }

-- what the memset of a struct leaves of the bytes from `head` on
abbrev pub clear_inside : List ℕ → List ℕ
clear_inside head = copy_prefix head_inside (zeros head_inside) head

-- pbuf_init: memset leaves the bytes behind the struct.
abbrev pub pbuf_init : Pbuf → ℕ → Pbuf
pbuf_init pb size = record zero_pbuf {
  end = size % 2 ^ 32;
  refcount = pos 1;
  head = clear_inside pb.head;
}

-- list_move, under the mutex
unfoldable pub move_entry : ℕ → ℕ → Pool → Run Pool
move_entry e to p = if p.locked then fault else ok (record p { nodes = NodeList.move e to p.nodes })

unfoldable pub alloc : ℕ → Pool → Run (Option ℕ × Pool)
alloc size p = do
  assert (leb size max_size)
  if NodeList.empty free_list p.nodes then (if p.locked then fault else ok (none, p)) else (do
    let e = NodeList.front free_list p.nodes
    p' ← move_entry e use_list p
    ok (some e, write_buf e (record (pbuf_init (p'.bufs e) size) { alloc_len = size }) p'))

unfoldable pub free : ℕ → Pool → Run Pool
free e p =
    let (last, count) = dec_and_test (p.bufs e).refcount in
    let p' = write_buf e (record (p.bufs e) { refcount = count }) p in
    if last then move_entry e free_list p' else ok p'

-- What pbuf_copy does with the buffer that it got: `sizeof(struct pbuf) + pb->tail` bytes are
-- `head_inside + tail` from `head` on. There are `head_inside + max_size` in an entry.
pub fill_copy : ℕ → Option ℕ × Pool → Run (Option ℕ × Pool)
fill_copy e (none, p) = ok (none, p)
fill_copy e (some c, p) =
    let pb = p.bufs e in
    if leb (head_inside + pb.tail) (head_inside + max_size)
    then ok (
      some c,
      write_buf c
          (record pb {
            head = copy_prefix (head_inside + pb.tail) pb.head (p.bufs c).head;
            refcount = pos 1;
          })
          p,
    )
    else fault

pub copy : ℕ → Pool → Run (Option ℕ × Pool)
copy e p = alloc (p.bufs e).len p >>= fill_copy e
