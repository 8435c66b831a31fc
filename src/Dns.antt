-- ===== src/Dns.antt =====
-- awldns/awldns.go: the names of the peers, and the answers about them. dns.CanonicalName, ToLower
-- and net.ParseIP are parameters.
pub mod Shortest
pub mod Answers
use awl.Base.{
  ℕ, ◌+◌, Bool, true, false, not, ◌&&◌, ◌||◌, List, [], ◌∷◌, ◌++◌, Option, none, some, Text, Map,
  lookup, insert, codes, ltb, if◌then◌else◌,
}

abbrev pub local_domain : Text
local_domain = codes "awl"

-- len of a string: the bytes of its UTF-8
unfoldable pub byte_length : Text → ℕ
byte_length [] = 0
byte_length (r ∷ s) =
    (if ltb r 0x80 then 1 else if ltb r 0x800 then 2 else if ltb r 0x10000 then 3 else 4)
    + byte_length s

pub record DnsConfig : Type 0 where
  pub upstream_dns : Text
  pub direct_mapping : Map Text
  pub direct_mapping_v6 : Map Text
  pub reverse_mapping : Map Text

module _ (canonical_name : Text → Text) where
  abbrev pub local_name : Text → Text
  local_name key = canonical_name (key ++ codes "." ++ local_domain)

  unfoldable pub direct_names : Map Text → Map Text → Map Text
  direct_names m [] = m
  direct_names m ((key, ip) ∷ mapping) = direct_names (insert (local_name key) ip m) mapping

  -- the name that is there already, unless the new one is shorter
  abbrev pub with_name : Map Text → Text → Text → Option Text → Map Text
  with_name m ip name none = insert ip name m
  with_name m ip name (some existed) =
      if ltb (byte_length name) (byte_length existed) then insert ip name m else m

  unfoldable pub reverse_names : Map Text → Map Text → Map Text
  unfolding byte_length
  reverse_names m [] = m
  reverse_names m ((key, ip) ∷ mapping) =
      reverse_names (with_name m ip (local_name key) (lookup ip m)) mapping

  unfoldable pub receive_configuration : Text → Map Text → Map Text → DnsConfig
  unfolding direct_names reverse_names
  receive_configuration upstream names names_v6 = record {
    upstream_dns = upstream;
    direct_mapping = direct_names [] names;
    direct_mapping_v6 = direct_names [] names_v6;
    reverse_mapping = reverse_names (reverse_names [] names) names_v6;
  }

pub data QuestionType : Type 0 where
  a aaaa any other : QuestionType

pub record Question : Type 0 where
  pub name : Text
  pub qtype : QuestionType

-- the question's name, and the IP
pub data Answer : Type 0 where
  a_record aaaa_record : Text → Text → Answer

pub record Reply : Type 0 where
  -- the response code is NXDOMAIN
  pub name_error : Bool
  pub answers : List Answer

abbrev pub empty_reply : Reply
empty_reply = record { name_error = false; answers = [] }

module _ (to_lower : Text → Text) (parse_v4 parse_v6 : Text → Option Text) where
  abbrev pub answer_if : (Text → Answer) → Reply → Option Text → Reply
  answer_if record_of m none = m
  answer_if record_of m (some ip) = record m { answers = m.answers ++ (record_of ip ∷ []) }

  abbrev pub with_a : Text → Reply → Option Text → Reply
  with_a name m none = m
  with_a name m (some mapped) = answer_if (a_record name) m (parse_v4 mapped)

  abbrev pub with_aaaa : Text → Reply → Option Text → Reply
  with_aaaa name m none = m
  with_aaaa name m (some mapped) = answer_if (aaaa_record name) m (parse_v6 mapped)

  -- neither mapping has the name
  abbrev pub or_name_error : Reply → Option Text → Option Text → Reply → Reply
  or_name_error m none none r = record m { name_error = true }
  or_name_error m none (some ip) r = r
  or_name_error m (some ip) found_v6 r = r

  abbrev pub answer_by : Text → Option Text → Option Text → Reply → QuestionType → Reply
  answer_by name v4 v6 m a = or_name_error m v4 v6 (with_a name m v4)
  answer_by name v4 v6 m aaaa = or_name_error m v4 v6 (with_aaaa name m v6)
  answer_by name v4 v6 m any = or_name_error m v4 v6 (with_aaaa name (with_a name m v4) v6)
  answer_by name v4 v6 m other = m

  abbrev pub answer_question : DnsConfig → Reply → Question → Reply
  answer_question cfg m q =
      answer_by q.name (lookup (to_lower q.name) cfg.direct_mapping)
        (lookup (to_lower q.name) cfg.direct_mapping_v6) m q.qtype

  unfoldable pub answer_questions : DnsConfig → Reply → List Question → Reply
  answer_questions cfg m [] = m
  answer_questions cfg m (q ∷ qs) = answer_questions cfg (answer_question cfg m q) qs

  -- no reply is written to a message without questions
  unfoldable pub dns_local_domain_handler : DnsConfig → List Question → Option Reply
  unfolding answer_questions
  dns_local_domain_handler cfg [] = none
  dns_local_domain_handler cfg (q ∷ qs) = some (answer_questions cfg empty_reply (q ∷ qs))
