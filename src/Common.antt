-- ===== src/Common.antt =====
-- common/common.go: the method signature of a request.
mod Runs
use Prim.Native.Nat.{bit_xor}
use gffg.Prelude.{
  ℕ, ◌*◌, ◌%◌, ◌^◌, ◌<◌, ◌≡◌, refl, Option, none, some, Bool, true, false, List, [], ◌∷◌, drop,
  arith, ◌↔◌,
}
use gffg.Prelude.Int.{ℤ, to_uint64, to_int64, to_uint64-to_int64}
use gffg.Prelude.Text.{Text, codes}

-- hash/fnv's `New64a` and `Write`: for each byte `hash ^= b; hash *= prime`, in 64 bits.
abbrev pub offset64 : ℕ
offset64 = 14695981039346656037

abbrev pub prime64 : ℕ
prime64 = 1099511628211

pub fnv_write : ℕ → Text → ℕ
fnv_write hash [] = hash
fnv_write hash (b ∷ bytes) = fnv_write (bit_xor hash b * prime64 % 2 ^ 64) bytes

-- `GenRid`.
unfoldable pub gen_rid : Text → ℕ
unfolding fnv_write
gen_rid method = fnv_write offset64 method

fnv_write-lt : (hash : ℕ) (bytes : Text) → hash < 2 ^ 64 → fnv_write hash bytes < 2 ^ 64
unfolding fnv_write
fnv_write-lt hash [] h = h
fnv_write-lt hash (b ∷ bytes) h =
    fnv_write-lt (bit_xor hash b * prime64 % 2 ^ 64) bytes (omega arith)

-- The signature of a method, sent as an int64 and read back as a uint64, is the signature.
pub gen_rid_signed : (method : Text) → to_uint64 (to_int64 (gen_rid method)) ≡ gen_rid method
unfolding gen_rid
gen_rid_signed method = to_uint64-to_int64 _ (fnv_write-lt offset64 method (omega arith))

-- `net.InterfaceAddrs`: an `IPNet`, on the loopback or not, with its IPv4 address if it is one; or another address.
pub data EthAddr : Type 0 where
  ip_net : Bool → Option Text → EthAddr
  other_addr : EthAddr

abbrev first_ip : List EthAddr → Text
first_ip [] = []
first_ip (ip_net false (some ip) ∷ addrs) = ip
first_ip (ip_net false none ∷ addrs) = first_ip addrs
first_ip (ip_net true ip ∷ addrs) = first_ip addrs
first_ip (other_addr ∷ addrs) = first_ip addrs

-- `GetEthIp`; `none` is the error of `InterfaceAddrs`.
unfoldable pub get_eth_ip : Option (List EthAddr) → Option Text
get_eth_ip none = none
get_eth_ip (some addrs) = some (first_ip addrs)

-- A context as far as its trace id goes: `SetTraceId` and `GetTraceId`. A value under another key is
-- passed over.
pub data Context : Type 0 where
  background : Context
  with_trace_id : Text → Context → Context
  with_other_value : Text → Context → Context

unfoldable pub set_trace_id : Context → Text → Context
set_trace_id ctx id = with_trace_id id ctx

unfoldable pub get_trace_id : Context → Text
get_trace_id background = []
get_trace_id (with_trace_id id ctx) = id
get_trace_id (with_other_value k ctx) = get_trace_id ctx

-- A channel of ints: the values that a receive would get without waiting, in order, and whether it is
-- closed.
pub record Channel : Type 0 where
  pub ready : List ℤ
  pub closed : Bool

abbrev taken : List ℤ → Channel → Bool × Channel
taken [] ch = (ch.closed, ch)
taken (n ∷ ready) ch = (false, record ch { ready = ready })

-- `ClosedChanInt`, with the channel that it leaves. It takes a value where there is one.
unfoldable pub closed_chan_int : Channel → Bool × Channel
closed_chan_int ch = taken ch.ready ch

abbrev Closed : Channel → Type 0
Closed ch = (ch.closed ≡ true) × (ch.ready ≡ [])

taken_lem :
    (ready : List ℤ) (ch : Channel)
    → ch.ready ≡ ready
    → (((taken ready ch).0 ≡ true) ↔ Closed ch)
      × ((taken ready ch).1.closed ≡ ch.closed)
      × ((taken ready ch).1.ready ≡ drop 1 ready)
taken_lem [] ch e = ((λ h. (h, e), λ h. h.0), refl, e)
taken_lem (n ∷ ready) ch e = ((λ h. cc, λ h. cc (h.1, e)), refl, refl)

-- `ClosedChanInt` finds a channel closed if and only if it is closed and holds no value; and the
-- channel that it leaves has lost the value that it held first.
closed_chan_int_lem :
    (ch : Channel)
    → (((closed_chan_int ch).0 ≡ true) ↔ Closed ch)
      × ((closed_chan_int ch).1.closed ≡ ch.closed)
      × ((closed_chan_int ch).1.ready ≡ drop 1 ch.ready)
unfolding closed_chan_int
closed_chan_int_lem ch = taken_lem ch.ready ch refl
