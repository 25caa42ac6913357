-- ===== src/Message/Filters/Text.antt =====
-- Which texts are those of data filters.
use iscp_go.Prelude.{
  ℕ, ◌≡◌, ◌≢◌, ◌↔◌, refl, sym, ap, ◌∙◌, subst, inl, inr, List, [], ◌∷◌, ◌++◌, Option, none, some,
  false, ◌==◌, nat_eq, if_cases, Bool-cases, nat_beq_iff,
}
use iscp_go.Message.Filters.{
  DataFilter, colon, filter_string, add_byte, split, filter_of_parts, parse_data_filter,
}

abbrev pub NoColon : List ℕ → Type 0
NoColon [] = Unit {0}
NoColon (b ∷ bs) = (b ≢ colon) × NoColon bs

abbrev pub AllWhole : List (List ℕ) → Type 0
AllWhole [] = Unit {0}
AllWhole (p ∷ ps) = NoColon p × AllWhole ps

abbrev pub join : List (List ℕ) → List ℕ
join [] = []
join (p ∷ []) = p
join (p ∷ q ∷ ps) = p ++ (colon ∷ join (q ∷ ps))

not_colon : (b : ℕ) → b ≢ colon → (b == colon) ≡ false
not_colon b n = elim (Bool-cases (b == colon)) [
  | inl q ↦ absurd (n ((nat_beq_iff b colon).0 q))
  | inr q ↦ q
]

split_whole : (n : List ℕ) → NoColon n → split n ≡ n ∷ []
unfolding split
split_whole [] h = refl
split_whole (b ∷ bs) h = rw (not_colon b h.0, split_whole bs h.1) refl

split-append : (t n : List ℕ) → NoColon t → split (t ++ (colon ∷ n)) ≡ t ∷ split n
unfolding split
split-append [] n h = refl
split-append (b ∷ bs) n h = rw (not_colon b h.0, split-append bs n h.1) refl

-- The parts that a text is split into, at least one, make it up again.
abbrev pub MadeOf : List ℕ → List (List ℕ) → Type 0
MadeOf s [] = ⊥
MadeOf s (p ∷ ps) = (join (p ∷ ps) ≡ s) × AllWhole (p ∷ ps)

add_byte-MadeOf :
    (b : ℕ) (s : List ℕ) (ps : List (List ℕ))
    → b ≢ colon
    → MadeOf s ps
    → MadeOf (b ∷ s) (add_byte b ps)
add_byte-MadeOf b s [] n h = elim h [ ]
add_byte-MadeOf b s (p ∷ []) n (e, w) = (ap (◌∷◌ b) e, ((n, w.0), w.1))
add_byte-MadeOf b s (p ∷ q ∷ ps) n (e, w) = (ap (◌∷◌ b) e, ((n, w.0), w.1))

colon-MadeOf : (s : List ℕ) (ps : List (List ℕ)) → MadeOf s ps → MadeOf (colon ∷ s) ([] ∷ ps)
colon-MadeOf s [] h = elim h [ ]
colon-MadeOf s (p ∷ ps) (e, w) = (ap (◌∷◌ colon) e, (tt, w))

split-MadeOf : (s : List ℕ) → MadeOf s (split s)
unfolding split
split-MadeOf [] = (refl, (tt, tt))
split-MadeOf (b ∷ bs) =
    if_cases (MadeOf (b ∷ bs)) (b == colon)
      (λ q.
        subst (λ x. MadeOf (x ∷ bs) ([] ∷ split bs)) (sym ((nat_beq_iff b colon).0 q))
          (colon-MadeOf bs (split bs) (split-MadeOf bs)))
      (λ q.
        add_byte-MadeOf b bs (split bs) (λ e. let r = (nat_beq_iff b colon).1 e in cc)
          (split-MadeOf bs))

parts-text :
    (ps : List (List ℕ)) (s : List ℕ) (d : DataFilter)
    → MadeOf s ps
    → filter_of_parts ps ≡ some d
    → (s ≡ filter_string d) × NoColon d.name × NoColon d.type_name
unfolding filter_of_parts filter_string
parts-text [] s d m h = absurd (cc)
parts-text (t ∷ []) s d m h = absurd (cc)
parts-text (t ∷ n ∷ p ∷ ps) s d m h = absurd (cc)
parts-text (t ∷ n ∷ []) s d (e, w) h =
    let k : record { name = n; type_name = t } ≡ d =
      ap (λ (o : Option DataFilter). elim o [ none ↦ d | some x ↦ x ]) h in
    subst (λ (x : DataFilter). (s ≡ filter_string x) × NoColon x.name × NoColon x.type_name) k
      (sym e, w.1.0, w.0)

-- The parser accepts exactly the texts of the data filters whose name and type have no colon, each as that filter.
pub parse_iff-filter_string :
    (src : List ℕ) (d : DataFilter)
    → (parse_data_filter src ≡ some d)
      ↔ ((src ≡ filter_string d) × NoColon d.name × NoColon d.type_name)
unfolding parse_data_filter
parse_iff-filter_string src d = (
  parts-text (split src) src d (split-MadeOf src),
  λ h.
      ap (λ s. filter_of_parts (split s)) h.0
      ∙ (unfold filter_string filter_of_parts in
          ap filter_of_parts
            (split-append d.type_name d.name h.2 ∙ ap (◌∷◌ d.type_name) (split_whole d.name h.1))),
)
