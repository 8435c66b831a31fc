-- ===== src/Tests/Names.antt =====
-- The names of one peer, and a message that asks for it.
use awl.Base.{◌≡◌, [], ◌∷◌, none, some, Text, Map, codes}
use awl.Dns.{DnsConfig, Question, a, any, Reply, receive_configuration, dns_local_domain_handler}
use awl.Dns.Shortest.{IsReverse, IsNameOf, receive_configuration-IsReverse}
use awl.Dns.Answers.{owed, any_unknown, dns_local_domain_handler_lem}

abbrev names : Map Text
names = (codes "12D3KooW", codes "10.66.0.2") ∷ (codes "laptop", codes "10.66.0.2") ∷ []

abbrev as_is : Text → Text
as_is name = name

abbrev config : DnsConfig
config = receive_configuration as_is (codes "192.0.2.1:53") names []

receive_configuration-IsReverse_example : IsReverse config.reverse_mapping (IsNameOf as_is names [])
receive_configuration-IsReverse_example =
    receive_configuration-IsReverse as_is (codes "192.0.2.1:53") names []

abbrev asked : Question
asked = record { name = codes "laptop.awl"; qtype = a }

abbrev asked_too : Question
asked_too = record { name = codes "phone.awl"; qtype = any }

dns_local_domain_handler_lem_example :
    (m : Reply) × (dns_local_domain_handler as_is
        (λ t. some t)
        (λ t. none)
        config
        (asked ∷ asked_too ∷ [])
      ≡ some m)
    × (m.name_error ≡ any_unknown as_is (λ t. some t) (λ t. none) config (asked ∷ asked_too ∷ []))
    × (m.answers ≡ owed as_is (λ t. some t) (λ t. none) config (asked ∷ asked_too ∷ []))
dns_local_domain_handler_lem_example =
    dns_local_domain_handler_lem as_is (λ t. some t) (λ t. none) config asked (asked_too ∷ [])
