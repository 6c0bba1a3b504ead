-- ===== src/Pbuf.antt =====
-- include/ckit/pbuf.h and src/pbuf.c: packet buffers. A pointer into the bytes of a buffer is an
-- offset. `unsigned` has 32 bits, and `size_t` 64.
pub mod Bounds
pub mod Pool
mod Tests
use libckit.Common.{ℕ, ◌+◌, ◌-◌, ◌%◌, ◌^◌, List, leb, if◌then◌else◌}
use libckit.Common.Int.{ℤ}
use libckit.Common.Word.{add32, sub32, add64, sub64}
use libckit.Common.Run.{Run, ok, fault, ◌>>=◌, ◌>>◌, assert}
use libckit.Atomic.{inc}

abbrev pub max_size : ℕ
max_size = 4096

-- How many bytes of `head` lie in the struct itself: on an LP64 machine it has 80 bytes, and `head`
-- starts at 76.
abbrev pub head_inside : ℕ
head_inside = 4

-- `struct pbuf`, with the bytes from `head` on to the end of its entry in the pool; `data_at` is
-- its `data`
pub record Pbuf : Type 0 where
  pub refcount : ℤ
  pub ifindex : ℕ
  pub cb : List ℕ
  pub alloc_len : ℕ
  pub len : ℕ
  pub data_at : ℕ
  pub tail : ℕ
  pub end : ℕ
  pub link_offset : ℕ
  pub network_offset : ℕ
  pub transport_offset : ℕ
  pub payload_offset : ℕ
  pub head : List ℕ

pub hold : Pbuf → Pbuf
hold pb = record pb { refcount = inc pb.refcount }

-- A `size_t` that is added to an `unsigned` is cut to 32 bits.
pub reserve : Pbuf → ℕ → Run (ℕ × Pbuf)
reserve pb len = do
  assert (leb len (sub32 pb.end pb.data_at))
  ok (add32 pb.data_at len, record pb { data_at = add32 pb.data_at len; tail = add32 pb.tail len })

pub push : Pbuf → ℕ → Run (ℕ × Pbuf)
push pb len = do
  assert (leb len pb.data_at)
  ok (sub32 pb.data_at len, record pb { data_at = sub32 pb.data_at len; len = add64 pb.len len })

pub pull : Pbuf → ℕ → Run (ℕ × Pbuf)
pull pb len = do
  assert (leb len (sub32 pb.end pb.data_at))
  ok (add32 pb.data_at len, record pb { data_at = add32 pb.data_at len; len = sub64 pb.len len })

pub put : Pbuf → ℕ → Run (ℕ × Pbuf)
put pb len = do
  assert (leb len (sub32 pb.end pb.tail))
  ok (pb.tail, record pb { tail = add32 pb.tail len; len = add64 pb.len len })

pub trim : Pbuf → ℕ → Pbuf
trim pb len = record pb { len = len; tail = add32 pb.data_at len }

abbrev pub headroom : Pbuf → ℕ
headroom pb = pb.data_at

abbrev pub tailroom : Pbuf → ℕ
tailroom pb = sub32 pb.end pb.tail

-- pbuf_link_header and its like, and pbuf_data
abbrev pub data_start : Pbuf → ℕ
data_start pb = pb.data_at

abbrev pub link_header : Pbuf → ℕ
link_header pb = pb.link_offset

abbrev pub network_header : Pbuf → ℕ
network_header pb = pb.network_offset

abbrev pub transport_header : Pbuf → ℕ
transport_header pb = pb.transport_offset

abbrev pub payload : Pbuf → ℕ
payload pb = pb.payload_offset

pub reset_link_header : Pbuf → Pbuf
reset_link_header pb = record pb { link_offset = pb.data_at }

pub reset_network_header : Pbuf → Pbuf
reset_network_header pb = record pb { network_offset = pb.data_at }

pub reset_transport_header : Pbuf → Pbuf
reset_transport_header pb = record pb { transport_offset = pb.data_at }

pub reset_payload : Pbuf → Pbuf
reset_payload pb = record pb { payload_offset = pb.data_at }
