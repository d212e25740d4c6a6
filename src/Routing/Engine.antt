-- ===== src/Routing/Engine.antt =====
-- pkg/routing/engine.go: the dial of a stream through the outbound that the rules choose.
-- A connection to the WARP proxy is what it does: whether it is accepted, whether the two writes go
-- through, and the bytes that it sends before it ends. The debug log is left out.
use iran_germany_split_tunne.Common.{
  ℕ, ◌+◌, Bool, true, false, not, ◌==◌, if◌then◌else◌, Option, none, some, List,
}
use Prim.Native.String.{String}
use text.Mathlib.Text.{◌==◌ as str_eq}
use iran_germany_split_tunne.Frame.{ok, err, read_full, byte_at}
use iran_germany_split_tunne.Routing.{
  Net, OutboundKind, direct, warp, block, Rule, RuleSet, Destination, evaluate, rule_by_id,
}

pub record Proxy : Type 0 where
  pub accepts : Bool
  pub greeting_sent : Bool
  pub request_sent : Bool
  pub replies : List ℕ

pub data WarpError : Type 0 where
  unreachable : WarpError
  refused : ℕ → WarpError
  malformed : WarpError

-- A tunnel, or an error with what became of the connection.
pub data WarpResult : Type 0 where
  tunnel : WarpResult
  failed : WarpError → Bool → WarpResult

-- `readN` and `readAddrBlock`: does the block come whole?
read_n : List ℕ → ℕ → Bool
read_n r n = elim (read_full n r) [ ok p ↦ true | err e ↦ false ]

read_domain_addr_block : List ℕ → Bool
unfolding read_n
read_domain_addr_block r = elim (read_full 1 r) [
  | err e ↦ false
  | ok (lb, rest) ↦ read_n rest (byte_at 0 lb + 2)
]

unfoldable pub read_addr_block : List ℕ → ℕ → Bool
unfolding read_n read_domain_addr_block
read_addr_block r atype =
    if atype == 0x01
    then read_n r 6
    else if atype == 0x04
    then read_n r 18
    else if atype == 0x03
    then read_domain_addr_block r
    else false

-- Every failure from here on closes the connection.
unfoldable pub connect_reply : List ℕ → WarpResult
unfolding read_addr_block
connect_reply r = elim (read_full 4 r) [
  | err e ↦ failed unreachable true
  | ok (head, rest) ↦
      if not (byte_at 1 head == 0)
      then failed (refused (byte_at 1 head)) true
      else if read_addr_block rest (byte_at 3 head)
      then tunnel
      else failed malformed true
]

unfoldable pub handshake : Proxy → WarpResult
unfolding connect_reply
handshake p =
    if not p.greeting_sent then failed unreachable true else elim (read_full 2 p.replies) [
      | err e ↦ failed unreachable true
      | ok (chosen, rest) ↦ if p.request_sent then connect_reply rest else failed unreachable true
    ]

-- `proto` is off only where the endpoint is a plain forwarder.
unfoldable pub dial_warp : Bool → Proxy → WarpResult
unfolding handshake
dial_warp proto p =
    if not p.accepts then failed unreachable false else if proto then handshake p else tunnel

-- What a dial does: no outbound for a malformed address, the direct dial, the tunnel, or a refusal.
pub data DialResult : Type 0 where
  malformed_target blocked direct_dialled warp_tunnel : DialResult
  warp_failed : WarpError → DialResult

abbrev pub falls_back : Option Rule → Bool
falls_back none = false
falls_back (some r) = str_eq r.fallback "direct"

unfoldable pub dial_outbound : RuleSet → WarpResult → OutboundKind → String → DialResult
unfolding rule_by_id
dial_outbound rs w block id = blocked
dial_outbound rs w direct id = direct_dialled
dial_outbound rs tunnel warp id = warp_tunnel
dial_outbound rs (failed unreachable shut) warp id =
    if falls_back (rule_by_id rs id) then direct_dialled else warp_failed unreachable
dial_outbound rs (failed e shut) warp id = warp_failed e

-- The target is what SplitHostPort makes of the address.
unfoldable pub dial : Net → RuleSet → Bool → Proxy → Option Destination → DialResult
unfolding dial_warp dial_outbound evaluate
dial net rs proto p none = malformed_target
dial net rs proto p (some dst) =
    dial_outbound rs (dial_warp proto p) (evaluate net rs dst).0 (evaluate net rs dst).1
