-- ===== src/Storage/Paths/Components.antt =====
-- A path is inside the root if its components begin with the root's.
use hybrid_ftp_socket.Prelude.{
  ℕ, Bool, true, false, List, [], ◌∷◌, ◌++◌, append_assoc, append-nil, ◌≡◌, refl, sym, ap, ap₂,
  subst, ◌∙◌, ◌⊎◌, inl, inr, ◌==◌, arith, Bool-cases, if◌then◌else◌,
}
use hybrid_ftp_socket.Prelude.Numerals.{Text, text_eq, split_onto, join}
use hybrid_ftp_socket.Prelude.Numerals.Equality.{text_eq_lem, text_eq_refl}
use hybrid_ftp_socket.Storage.Paths.{startswith, is_inside}

-- The components of a path begin with those of another.
abbrev pub IsBelow : Text → Text → Type 0
IsBelow real_base path =
    (more : List Text) × (split_onto b'/' path ≡ split_onto b'/' real_base ++ more)

startswith_lem :
    (s prefix : Text) → startswith s prefix ≡ true → (rest : Text) × (s ≡ prefix ++ rest)
unfolding startswith
startswith_lem s [] e = (s, refl)
startswith_lem [] (c ∷ prefix) e = absurd cc
startswith_lem (d ∷ s) (c ∷ prefix) e = by_test (d == c) (startswith_lem s prefix) (equal d c) e
  where
    equal : (d c : ℕ) → (d == c) ≡ true → d ≡ c
    equal d c h = ground arith

    by_test :
        (test : Bool)
        → (startswith s prefix ≡ true → (rest : Text) × (s ≡ prefix ++ rest))
        → (test ≡ true → d ≡ c)
        → (elim test [ true ↦ startswith s prefix | false ↦ false ]) ≡ true
        → (rest : Text) × (d ∷ s ≡ c ∷ (prefix ++ rest))
    by_test true ih same e = let (rest, tail) = ih e in (rest, ap₂ (λ a r. a ∷ r) (same refl) tail)
    by_test false ih same e = absurd cc

startswith-append : (prefix rest : Text) → startswith (prefix ++ rest) prefix ≡ true
unfolding startswith
startswith-append [] rest = refl
startswith-append (c ∷ prefix) rest =
    let same : (c == c) ≡ true = ground arith in
    rw (same, startswith) (startswith-append prefix rest)

-- There is always a first component.
split_onto_cases :
    (s : Text) → (part : Text) × (parts : List Text) × (split_onto b'/' s ≡ part ∷ parts)
unfolding split_onto
split_onto_cases [] = ([], [], refl)
split_onto_cases (c ∷ s) =
    let (part, parts, e) = split_onto_cases s in
    elim (Bool-cases (c == b'/')) [
      | inl t ↦ ([], split_onto b'/' s, rw (t, split_onto) refl)
      | inr t ↦ (c ∷ part, parts, rw (t, split_onto, e) refl)
    ]

-- The components of two paths with a slash between them.
split_onto-append :
    (s rest : Text)
    → split_onto b'/' (s ++ (b'/' ∷ rest)) ≡ split_onto b'/' s ++ split_onto b'/' rest
unfolding split_onto
split_onto-append [] rest = refl
split_onto-append (c ∷ s) rest =
    let (part, parts, e) = split_onto_cases s in
    elim (Bool-cases (c == b'/')) [
      | inl t ↦ rw (t, split_onto, split_onto-append s rest) refl
      | inr t ↦ rw (t, split_onto, split_onto-append s rest, e) refl
    ]

join-split_onto : (s : Text) → join (b'/' ∷ []) (split_onto b'/' s) ≡ s
unfolding split_onto join
join-split_onto [] = refl
join-split_onto (c ∷ s) =
    let (part, parts, e) = split_onto_cases s in
    let whole : join (b'/' ∷ []) (part ∷ parts) ≡ s =
      subst (λ l. join (b'/' ∷ []) l ≡ s) e (join-split_onto s) in
    elim (Bool-cases (c == b'/')) [
      | inl t ↦
          let slash : b'/' ≡ c = ground arith in
          rw (t, split_onto, e) (ap₂ (λ a r. a ∷ r) slash whole)
      | inr t ↦ rw (t, split_onto, e) (join-longer c part parts ∙ ap (λ r. c ∷ r) whole)
    ]
  where
    join-longer :
        (c : ℕ) (part : Text) (parts : List Text)
        → join (b'/' ∷ []) ((c ∷ part) ∷ parts) ≡ c ∷ join (b'/' ∷ []) (part ∷ parts)
    join-longer c part [] = refl
    join-longer c part (next ∷ parts) = refl

join-append :
    (part : Text) (parts : List Text) (next : Text) (more : List Text)
    → join (b'/' ∷ []) ((part ∷ parts) ++ (next ∷ more))
      ≡ join (b'/' ∷ []) (part ∷ parts) ++ (b'/' ∷ join (b'/' ∷ []) (next ∷ more))
unfolding join
join-append part [] next more = refl
join-append part (second ∷ parts) next more =
    rw (join-append second parts next more)
      (sym (append_assoc part (b'/' ∷ join (b'/' ∷ []) (second ∷ parts)) _))

-- The test by characters is the test by components.
pub is_inside-IsBelow :
    (real_base real_target : Text)
    → is_inside real_base real_target ≡ true
    → IsBelow real_base real_target
unfolding is_inside
is_inside-IsBelow b t e = elim (Bool-cases (text_eq t b)) [
  | inl h ↦ ([], ap (split_onto b'/') (text_eq_lem t b h) ∙ sym (append-nil (split_onto b'/' b)))
  | inr h ↦
      let prefix : startswith t (b ++ (b'/' ∷ [])) ≡ true =
        subst (λ x. (if x then true else startswith t (b ++ (b'/' ∷ []))) ≡ true) h e in
      let (rest, whole) = startswith_lem t (b ++ (b'/' ∷ [])) prefix in
      (
        split_onto b'/' rest,
        ap (split_onto b'/') (whole ∙ append_assoc b (b'/' ∷ []) rest) ∙ split_onto-append b rest,
      )
]

pub IsBelow-is_inside :
    (real_base real_target : Text)
    → IsBelow real_base real_target
    → is_inside real_base real_target ≡ true
unfolding is_inside
IsBelow-is_inside b t ([], e) =
    let same : t ≡ b =
      sym (join-split_onto t)
      ∙ ap (join (b'/' ∷ [])) (e ∙ append-nil (split_onto b'/' b))
      ∙ join-split_onto b in
    rw (same, text_eq_refl b) refl
IsBelow-is_inside b t (next ∷ more, e) =
    let (part, parts, first) = split_onto_cases b in
    let behind : t ≡ b ++ (b'/' ∷ join (b'/' ∷ []) (next ∷ more)) =
      sym (join-split_onto t)
      ∙ ap (join (b'/' ∷ [])) (e ∙ ap (λ l. l ++ (next ∷ more)) first)
      ∙ join-append part parts next more
      ∙ ap (λ l. join (b'/' ∷ []) l ++ (b'/' ∷ join (b'/' ∷ []) (next ∷ more))) (sym first)
      ∙ ap (λ x. x ++ (b'/' ∷ join (b'/' ∷ []) (next ∷ more))) (join-split_onto b) in
    let prefix : startswith t (b ++ (b'/' ∷ [])) ≡ true =
      ap (λ x. startswith x (b ++ (b'/' ∷ [])))
        (behind ∙ sym (append_assoc b (b'/' ∷ []) (join (b'/' ∷ []) (next ∷ more))))
      ∙ startswith-append (b ++ (b'/' ∷ [])) (join (b'/' ∷ []) (next ∷ more)) in
    either (text_eq t b) (startswith t (b ++ (b'/' ∷ []))) prefix
  where
    either : (x y : Bool) → y ≡ true → (if x then true else y) ≡ true
    either true y e = refl
    either false y e = e

-- The root itself, and a path that goes on behind the root's own path with a slash.
pub inside-IsBelow :
    (real_base : Text) {path : Text}
    → (path ≡ real_base) ⊎ ((rest : Text) × (path ≡ real_base ++ (b'/' ∷ rest)))
    → IsBelow real_base path
inside-IsBelow b (inl same) = ([], ap (split_onto b'/') same ∙ sym (append-nil (split_onto b'/' b)))
inside-IsBelow b (inr (rest, behind)) =
    (split_onto b'/' rest, ap (split_onto b'/') behind ∙ split_onto-append b rest)
