-- ===== src/Reconnect/Control/Laws.antt =====
-- The parser of control messages against their encoding.
use iscp_go.Prelude.{
  ℕ, subst, ◌↔◌, nat_beq_iff, ◌+◌, ◌*◌, ◌/◌, ◌%◌, ◌<◌, ◌≡◌, sym, ap, ◌∙◌, inl, inr, ◌⊎◌, List, [],
  ◌∷◌, ◌++◌, ◌&&◌, arith, leb, ◌==◌, nat_eq, Bool-cases,
}
use iscp_go.Segment.Format.{put_uint32, uint32, uint32-put_uint32}
use iscp_go.Reconnect.Control.{
  ControlMessage, ping, pong, get_sequence, marshal_binary, control, parse_sequence, parse_rest,
  parse_type, try_parse_control_message,
}

abbrev pub AllBytes : List ℕ → Type 0
AllBytes [] = Unit {0}
AllBytes (b ∷ bs) = (b < 256) × AllBytes bs

-- An encoded message is parsed as itself, whatever bytes follow it.
parse-marshal :
    (m : ControlMessage) (extra : List ℕ)
    → get_sequence m < 4294967296
    → try_parse_control_message (marshal_binary m ++ extra) ≡ control m
unfolding try_parse_control_message marshal_binary
parse-marshal (ping n) extra h = ap (λ k. control (ping k)) (uint32-put_uint32 n h)
parse-marshal (pong n) extra h = ap (λ k. control (pong k)) (uint32-put_uint32 n h)

put_uint32-uint32 :
    (a b c d : ℕ)
    → a < 256
    → b < 256
    → c < 256
    → d < 256
    → put_uint32 (uint32 a b c d) ≡ a ∷ b ∷ c ∷ d ∷ []
unfolding put_uint32 uint32
put_uint32-uint32 a b c d ha hb hc hd =
    let e0 : (a * 16777216 + b * 65536 + c * 256 + d) / 16777216 % 256 ≡ a = omega arith in
    let e1 : (a * 16777216 + b * 65536 + c * 256 + d) / 65536 % 256 ≡ b = omega arith in
    let e2 : (a * 16777216 + b * 65536 + c * 256 + d) / 256 % 256 ≡ c = omega arith in
    let e3 : (a * 16777216 + b * 65536 + c * 256 + d) % 256 ≡ d = omega arith in cc (e0, e1, e2, e3)

-- A list of bytes that is parsed as a message is its encoding and further bytes.
abbrev pub Encodes : List ℕ → ControlMessage → Type 0
Encodes bs m = (extra : List ℕ) × (bs ≡ marshal_binary m ++ extra) × (get_sequence m < 4294967296)

sequence_cases :
    (t seq : ℕ) (m : ControlMessage)
    → parse_sequence t seq ≡ control m
    → (t ≡ 0) × (m ≡ ping seq) ⊎ (t ≡ 1) × (m ≡ pong seq)
unfolding parse_sequence
sequence_cases t seq m h = ground arith

encoded :
    (t s0 s1 s2 s3 : ℕ) (extra : List ℕ) (m : ControlMessage)
    → AllBytes (s0 ∷ s1 ∷ s2 ∷ s3 ∷ [])
    → parse_sequence t (uint32 s0 s1 s2 s3) ≡ control m
    → Encodes (255 ∷ t ∷ s0 ∷ s1 ∷ s2 ∷ s3 ∷ extra) m
unfolding marshal_binary uint32
encoded t s0 s1 s2 s3 extra m (h0, (h1, (h2, (h3, end)))) h =
    let bytes = put_uint32-uint32 s0 s1 s2 s3 h0 h1 h2 h3 in
    elim (sequence_cases t (uint32 s0 s1 s2 s3) m h) [
      | inl (e, f) ↦ rw (e, f) (extra, sym (ap (λ bs. 255 ∷ 0 ∷ (bs ++ extra)) bytes), omega arith)
      | inr (e, f) ↦ rw (e, f) (extra, sym (ap (λ bs. 255 ∷ 1 ∷ (bs ++ extra)) bytes), omega arith)
    ]

rest-Encodes :
    (t : ℕ) (rest : List ℕ) (m : ControlMessage)
    → AllBytes rest
    → parse_rest t rest ≡ control m
    → Encodes (255 ∷ t ∷ rest) m
unfolding parse_rest
rest-Encodes t [] m all h = cc
rest-Encodes t (s0 ∷ []) m all h = cc
rest-Encodes t (s0 ∷ s1 ∷ []) m all h = cc
rest-Encodes t (s0 ∷ s1 ∷ s2 ∷ []) m all h = cc
rest-Encodes t (s0 ∷ s1 ∷ s2 ∷ s3 ∷ extra) m all h =
    encoded t s0 s1 s2 s3 extra m (all.0, (all.1.0, (all.1.1.0, (all.1.1.1.0, tt)))) h

type-Encodes :
    (rest : List ℕ) (m : ControlMessage)
    → AllBytes rest
    → parse_type rest ≡ control m
    → Encodes (255 ∷ rest) m
unfolding parse_type
type-Encodes [] m all h = cc
type-Encodes (t ∷ rest) m all h = elim (Bool-cases (leb 2 t && leb t 15)) [
  | inl e ↦ let h' = rw e at h in cc
  | inr e ↦ rest-Encodes t rest m all.1 (rw e at h)
]

parse-Encodes :
    (bs : List ℕ) (m : ControlMessage)
    → AllBytes bs
    → try_parse_control_message bs ≡ control m
    → Encodes bs m
unfolding try_parse_control_message
parse-Encodes [] m all h = cc
parse-Encodes (b ∷ rest) m all h = elim (Bool-cases (b == 255)) [
  | inl e ↦
      subst (λ c. Encodes (c ∷ rest) m) (sym ((nat_beq_iff b 255).0 e))
        (type-Encodes rest m all.1 (rw e at h))
  | inr e ↦ let h' = rw e at h in cc
]

-- Of a byte string, the parser makes a control message exactly if it is the encoding of that message, with a
-- sequence number of 32 bits, or that encoding followed by further bytes.
pub parse_iff-marshal :
    (bs : List ℕ) (m : ControlMessage)
    → AllBytes bs
    → (try_parse_control_message bs ≡ control m)
      ↔ ((extra : List ℕ) × (bs ≡ marshal_binary m ++ extra) × (get_sequence m < 4294967296))
parse_iff-marshal bs m all =
    (parse-Encodes bs m all, λ e. ap try_parse_control_message e.1 ∙ parse-marshal m e.0 e.2)
