-- ===== src/Dns/Answers.antt =====
-- What the handler of the local domain answers.
use awl.Base.{
  ap, ◌∙◌, if◌then◌else◌, ◌≡◌, refl, Bool, true, false, ◌||◌, List, [], ◌∷◌, ◌++◌, Option, none,
  some, Text, lookup, arith, subst,
}
use awl.Dns.{
  DnsConfig, QuestionType, a, aaaa, any, other, Question, Answer, a_record, aaaa_record, Reply,
  answer_if, with_a, with_aaaa, answer_by, answer_question, answer_questions, empty_reply,
  dns_local_domain_handler,
}

-- The name is in neither mapping, and the question is about addresses.
abbrev pub is_unknown : Option Text → Option Text → QuestionType → Bool
is_unknown v4 v6 other = false
is_unknown none none a = true
is_unknown none none aaaa = true
is_unknown none none any = true
is_unknown none (some ip) a = false
is_unknown none (some ip) aaaa = false
is_unknown none (some ip) any = false
is_unknown (some ip) v6 a = false
is_unknown (some ip) v6 aaaa = false
is_unknown (some ip) v6 any = false

-- A question asks for the IPv4 address, or for the IPv6 address.
abbrev pub asks_v4 : QuestionType → Bool
asks_v4 a = true
asks_v4 aaaa = false
asks_v4 any = true
asks_v4 other = false

abbrev pub asks_v6 : QuestionType → Bool
asks_v6 a = false
asks_v6 aaaa = true
asks_v6 any = true
asks_v6 other = false

module _ (to_lower : Text → Text) (parse_v4 parse_v6 : Text → Option Text) (cfg : DnsConfig) where
  abbrev pub of_option : (Text → Answer) → Option Text → List Answer
  of_option record_of none = []
  of_option record_of (some ip) = record_of ip ∷ []

  -- the record for an IP that is mapped and is one of the family
  abbrev pub mapped : (Text → Answer) → (Text → Option Text) → Option Text → List Answer
  mapped record_of parse none = []
  mapped record_of parse (some text) = of_option record_of (parse text)

  -- the answers that a question is owed: an A record of the name asked, with the IP that the IPv4
  -- mapping has for it, if it asks for that, and an AAAA record likewise
  abbrev pub owed_v4 : Question → List Answer
  owed_v4 q =
      if asks_v4 q.qtype
      then mapped (a_record q.name) parse_v4 (lookup (to_lower q.name) cfg.direct_mapping)
      else []

  abbrev pub owed_v6 : Question → List Answer
  owed_v6 q =
      if asks_v6 q.qtype
      then mapped (aaaa_record q.name) parse_v6 (lookup (to_lower q.name) cfg.direct_mapping_v6)
      else []

  abbrev pub owed : List Question → List Answer
  owed [] = []
  owed (q ∷ qs) = owed_v4 q ++ (owed_v6 q ++ owed qs)

  abbrev pub any_unknown : List Question → Bool
  any_unknown [] = false
  any_unknown (q ∷ qs) =
      is_unknown (lookup (to_lower q.name) cfg.direct_mapping)
        (lookup (to_lower q.name) cfg.direct_mapping_v6) q.qtype
      || any_unknown qs

  append_nil : (xs : List Answer) → xs ≡ xs ++ []
  append_nil [] = refl
  append_nil (x ∷ xs) = ap (λ l. x ∷ l) (append_nil xs)

  append_assoc : (xs ys zs : List Answer) → (xs ++ ys) ++ zs ≡ xs ++ (ys ++ zs)
  append_assoc [] ys zs = refl
  append_assoc (x ∷ xs) ys zs = ap (λ l. x ∷ l) (append_assoc xs ys zs)

  -- the reply with more answers, and with a name error if there is one
  record Extends (m : Reply) (error : Bool) (more : List Answer) (m' : Reply) : Type 0 where
    code : m'.name_error ≡ (m.name_error || error)
    answers : m'.answers ≡ m.answers ++ more

  or_false : (b : Bool) → b ≡ (b || false)
  or_false b = ground arith

  unchanged : (m : Reply) → Extends m false [] m
  unchanged m = record { code = or_false m.name_error; answers = append_nil m.answers }

  Extends-answer_if :
      (record_of : Text → Answer) (m : Reply) (o : Option Text)
      → Extends m false (of_option record_of o) (answer_if to_lower parse_v4 parse_v6 record_of m o)
  Extends-answer_if record_of m none = unchanged m
  Extends-answer_if record_of m (some ip) = record { code = or_false m.name_error; answers = refl }

  Extends-with_a :
      (name : Text) (m : Reply) (o : Option Text)
      → Extends m false
          (mapped (a_record name) parse_v4 o)
          (with_a to_lower parse_v4 parse_v6 name m o)
  Extends-with_a name m none = unchanged m
  Extends-with_a name m (some text) = Extends-answer_if (a_record name) m (parse_v4 text)

  Extends-with_aaaa :
      (name : Text) (m : Reply) (o : Option Text)
      → Extends m false
          (mapped (aaaa_record name) parse_v6 o)
          (with_aaaa to_lower parse_v4 parse_v6 name m o)
  Extends-with_aaaa name m none = unchanged m
  Extends-with_aaaa name m (some text) = Extends-answer_if (aaaa_record name) m (parse_v6 text)

  Extends-trans :
      (m m' m'' : Reply) (b c : Bool) (xs ys : List Answer)
      → Extends m b xs m'
      → Extends m' c ys m''
      → Extends m (b || c) (xs ++ ys) m''
  Extends-trans m m' m'' b c xs ys h k = record {
    code = ground (arith, h.code, k.code);
    answers = k.answers ∙ ap (λ l. l ++ ys) h.answers ∙ append_assoc m.answers xs ys;
  }

  -- one more answer list that is empty, behind
  and_nothing :
      (m m' : Reply) (b : Bool) (xs : List Answer) → Extends m b xs m' → Extends m b (xs ++ []) m'
  and_nothing m m' b xs h = subst (λ l. Extends m b l m') (append_nil xs) h

  failed : (m : Reply) → Extends m true [] (record m { name_error = true })
  failed m = record { code = ground arith; answers = append_nil m.answers }

  Extends-answer_by :
      (name : Text) (v4 v6 : Option Text) (m : Reply) (t : QuestionType)
      → Extends m
          (is_unknown v4 v6 t)
          ((if asks_v4 t then mapped (a_record name) parse_v4 v4 else [])
            ++ (if asks_v6 t then mapped (aaaa_record name) parse_v6 v6 else []))
          (answer_by to_lower parse_v4 parse_v6 name v4 v6 m t)
  Extends-answer_by name v4 v6 m other = unchanged m
  Extends-answer_by name none none m a = failed m
  Extends-answer_by name none none m aaaa = failed m
  Extends-answer_by name none none m any = failed m
  Extends-answer_by name none (some ip) m a = unchanged m
  Extends-answer_by name none (some ip) m aaaa = Extends-with_aaaa name m (some ip)
  Extends-answer_by name none (some ip) m any = Extends-with_aaaa name m (some ip)
  Extends-answer_by name (some ip) v6 m a =
      and_nothing m (with_a to_lower parse_v4 parse_v6 name m (some ip)) false
        (mapped (a_record name) parse_v4 (some ip)) (Extends-with_a name m (some ip))
  Extends-answer_by name (some ip) v6 m aaaa = Extends-with_aaaa name m v6
  Extends-answer_by name (some ip) v6 m any =
      let m' = with_a to_lower parse_v4 parse_v6 name m (some ip) in
      Extends-trans m m' (with_aaaa to_lower parse_v4 parse_v6 name m' v6) false false
        (mapped (a_record name) parse_v4 (some ip)) (mapped (aaaa_record name) parse_v6 v6)
        (Extends-with_a name m (some ip)) (Extends-with_aaaa name m' v6)

  Extends-answer_questions :
      (m : Reply) (qs : List Question)
      → Extends m (any_unknown qs) (owed qs) (answer_questions to_lower parse_v4 parse_v6 cfg m qs)
  unfolding answer_questions
  Extends-answer_questions m [] = unchanged m
  Extends-answer_questions m (q ∷ qs) =
      let v4 = lookup (to_lower q.name) cfg.direct_mapping in
      let v6 = lookup (to_lower q.name) cfg.direct_mapping_v6 in
      let m' = answer_question to_lower parse_v4 parse_v6 cfg m q in
      let m'' = answer_questions to_lower parse_v4 parse_v6 cfg m' qs in
      subst (λ l. Extends m (any_unknown (q ∷ qs)) l m'')
        (append_assoc (owed_v4 q) (owed_v6 q) (owed qs))
        (Extends-trans m m' m'' (is_unknown v4 v6 q.qtype) (any_unknown qs) (owed_v4 q ++ owed_v6 q)
          (owed qs) (Extends-answer_by q.name v4 v6 m q.qtype) (Extends-answer_questions m' qs))

-- Every message with questions is answered. The code is NXDOMAIN exactly if some question about
-- addresses names what neither mapping has, in lower case. The answers are, for the questions in
-- their order, those that each is owed and no others: if it is for A or ANY, an A record of the
-- name as it was asked, with the IPv4 address that the IPv4 mapping has for it in lower case, if
-- there is one; then, if it is for AAAA or ANY, an AAAA record likewise, of the IPv6 mapping.
pub dns_local_domain_handler_lem :
    (to_lower : Text → Text) (parse_v4 parse_v6 : Text → Option Text) (cfg : DnsConfig)
    (q : Question) (qs : List Question)
    → (m : Reply) × (dns_local_domain_handler to_lower parse_v4 parse_v6 cfg (q ∷ qs) ≡ some m)
      × (m.name_error ≡ any_unknown to_lower parse_v4 parse_v6 cfg (q ∷ qs))
      × (m.answers ≡ owed to_lower parse_v4 parse_v6 cfg (q ∷ qs))
unfolding dns_local_domain_handler
dns_local_domain_handler_lem to_lower parse_v4 parse_v6 cfg q qs =
    let h = Extends-answer_questions to_lower parse_v4 parse_v6 cfg empty_reply (q ∷ qs) in
    (answer_questions to_lower parse_v4 parse_v6 cfg empty_reply (q ∷ qs), refl, h.code, h.answers)
