-- ===== src/Examples/Peers.antt =====
-- The address of a client behind a proxy, at a concrete request.
use cofound.Prelude.{
  ℕ, String, Bool, Option, some, none, ◌≡◌, refl, [], ◌∷◌, ◌==◌, ◌=s◌, trim_space, if◌then◌else◌,
}
use cofound.Httpx.Peer.{Network, Sender, client_ip, forwarded_for, request_id}
use cofound.Httpx.Peer.Unspoofed.{prepended, client_ip-prepended}

abbrev parse : String → Option ℕ
parse s =
    if s =s "10.0.0.1"
    then some 1
    else if s =s "192.0.2.7"
    then some 7
    else if s =s "6.6.6.6"
    then some 6
    else none

abbrev network : Network ℕ
network = record {
  parse_addr = parse;
  unmap = λ ip. ip;
  split_host_port = λ s. none;
  contains = λ p ip. p == ip;
  trusted = 1 ∷ [];
}

abbrev sender : Sender
sender = record { remote_addr = "10.0.0.1"; forwarded = []; request_ids = "request-0001" ∷ [] }

client_ip-prepended_example :
    client_ip network
      (record sender { forwarded = prepended "6.6.6.6" "192.0.2.7, 10.0.0.1" ∷ [] })
      none
    ≡ client_ip network (record sender { forwarded = "192.0.2.7, 10.0.0.1" ∷ [] }) none
unfolding forwarded_for trim_space
client_ip-prepended_example =
    client_ip-prepended network sender "6.6.6.6" "192.0.2.7, 10.0.0.1" [] none 7 refl

behind_a_proxy :
    client_ip network (record sender { forwarded = "192.0.2.7, 10.0.0.1" ∷ [] }) none ≡ some 7
unfolding client_ip trim_space
behind_a_proxy = refl

-- A last part that is no address is passed over, and the client's own text is believed.
behind_an_unknown :
    client_ip network (record sender { forwarded = prepended "6.6.6.6" "unknown" ∷ [] }) none
    ≡ some 6
unfolding client_ip trim_space
behind_an_unknown = refl

id_of_a_proxy : request_id network Bool.true "fresh" sender ≡ "request-0001"
unfolding request_id
id_of_a_proxy = refl
