-- ===== src/Httpx/Peer.antt =====
-- packages/chassis/httpx: ClientIP and forwardedFor of log.go, and requestid.go. Parsing an address,
-- Unmap, SplitHostPort and the Contains of a prefix are arguments; an address that parses is valid.
use Prim.Native.String.{len}
use cofound.Prelude.{
  ℕ, String, Bool, true, false, ◌&&◌, ◌||◌, not, Option, none, some, List, [], ◌∷◌, ltb, leb, ◌==◌,
  ◌=s◌, trim_space, if◌then◌else◌,
}
use cofound.Errs.Code.{codes}
use cofound.Config.Parse.{split_comma}
pub mod Unspoofed

-- What netip and net give, and the CIDRs that are trusted.
pub record Network (P : Type 0) : Type 0 where
  pub parse_addr : String → Option ℕ
  pub unmap : ℕ → ℕ
  pub split_host_port : String → Option String
  pub contains : P → ℕ → Bool
  pub trusted : List P

-- What a request shows of its sender: the peer, and the lines of two headers.
pub record Sender : Type 0 where
  pub remote_addr : String
  pub forwarded : List String
  pub request_ids : List String

-- http.Header.Get: the first line of a header.
unfoldable pub header_get : List String → String
header_get [] = ""
header_get (s ∷ ss) = s

unfoldable pub any_of : {P : Type 0} → (P → ℕ → Bool) → List P → ℕ → Bool
any_of contains [] ip = false
any_of contains (p ∷ ps) ip = contains p ip || any_of contains ps ip

module _ {P : Type 0} (n : Network P) where
  unfoldable pub is_trusted : ℕ → Bool
  unfolding any_of
  is_trusted ip = any_of n.contains n.trusted ip

  unfoldable pub host_of : Sender → String
  host_of r = elim (n.split_host_port r.remote_addr) [ none ↦ r.remote_addr | some h ↦ h ]

  -- peerAddr
  unfoldable pub peer_addr : Sender → Option ℕ
  unfolding host_of
  peer_addr r = elim (n.parse_addr (host_of r)) [ none ↦ none | some ip ↦ some (n.unmap ip) ]

  -- The loop of forwardedFor, on one part that is parsed.
  unfoldable pub judge_part : Option ℕ → Option ℕ
  unfolding is_trusted
  judge_part none = none
  judge_part (some ip) = if is_trusted (n.unmap ip) then none else some (n.unmap ip)

  -- The loop of forwardedFor: a part counts only if no part to its right has been returned.
  unfoldable pub walk : List String → Option ℕ
  unfolding judge_part
  walk [] = none
  walk (p ∷ ps) = elim (walk ps) [
    | some ip ↦ some ip
    | none ↦ judge_part (n.parse_addr (trim_space p))
  ]

  -- forwardedFor
  unfoldable pub forwarded_for : String → Option ℕ
  unfolding walk split_comma
  forwarded_for raw = if raw =s "" then none else walk (split_comma raw)

  -- ClientIP, once the peer and the forwarded address are known.
  unfoldable pub judge_peer : Option ℕ → Option ℕ → Option ℕ → Option ℕ
  unfolding is_trusted
  judge_peer none fwd before = before
  judge_peer (some ip) none before = some ip
  judge_peer (some ip) (some fwd) before = if is_trusted ip then some fwd else some ip

  -- ClientIP: the address that the handler finds in its context, where `before` was.
  unfoldable pub client_ip : Sender → Option ℕ → Option ℕ
  unfolding judge_peer peer_addr forwarded_for header_get
  client_ip r before = judge_peer (peer_addr r) (forwarded_for (header_get r.forwarded)) before

  -- peerIsTrusted
  unfoldable pub peer_is_trusted : Sender → Bool
  unfolding peer_addr is_trusted
  peer_is_trusted r = elim (peer_addr r) [ none ↦ false | some ip ↦ is_trusted ip ]

unfoldable pub is_id_char : ℕ → Bool
is_id_char c =
    (leb 97 c && leb c 122)
    || (leb 65 c && leb c 90)
    || (leb 48 c && leb c 57)
    || c == 95
    || c == 45

unfoldable pub all_id_chars : List ℕ → Bool
unfolding is_id_char
all_id_chars [] = true
all_id_chars (c ∷ cs) = is_id_char c && all_id_chars cs

-- ValidRequestID
unfoldable pub valid_request_id : String → Bool
unfolding all_id_chars
valid_request_id s = not (ltb (len s) 8 || ltb 64 (len s)) && all_id_chars (codes s)

module _ {P : Type 0} (n : Network P) where
  -- RequestID: the id that the response and the context get, where `new` is the one that would be
  -- generated.
  unfoldable pub request_id : Bool → String → Sender → String
  unfolding valid_request_id peer_is_trusted header_get
  request_id trust_inbound new r =
      let candidate = header_get r.request_ids in
      if trust_inbound && valid_request_id candidate && peer_is_trusted n r then candidate else new
