-- ===== src/Dns/Resolver/Records.antt =====
-- The records that an answer keeps of a response.
use dnsanity.Common.{List, [], ◌∷◌}
use dnsanity.Text.{Bytes}
use dnsanity.Dns.Resolver.{Rr, address, target, other}

-- The addresses, and the targets, in the order of the response
pub addresses : List Rr → List Bytes
addresses [] = []
addresses (address s ∷ rrs) = s ∷ addresses rrs
addresses (target s ∷ rrs) = addresses rrs
addresses (other ∷ rrs) = addresses rrs

pub targets : List Rr → List Bytes
targets [] = []
targets (address s ∷ rrs) = targets rrs
targets (target s ∷ rrs) = s ∷ targets rrs
targets (other ∷ rrs) = targets rrs
