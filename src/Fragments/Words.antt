-- ===== src/Fragments/Words.antt =====
-- Joins of words, texts that begin and end with no space, as they arise in
-- packages/core/src/utils/join-sql-fragments.ts.
use sequelize.Base.{
  ◌≡◌, refl, sym, ap, ◌∙◌, subst, Bool, true, false, not, ◌&&◌, List, [], ◌∷◌, ◌++◌, if◌then◌else◌,
  Text, inl, inr, Bool-cases, All,
}
use sequelize.Fragments.Join.{
  is_space, is_blank, trim_start, trim_end, trim, does_not_want_trailing_space, leading,
  single_space_join, trimmed,
}

abbrev starts_well : Text → Bool
starts_well [] = false
starts_well (c ∷ cs) = not (is_space c)

-- A text that begins and ends with no space.
abbrev pub IsWord : Text → Type 0
IsWord w = (starts_well w ≡ true) × (trim_end w ≡ w)

append_nil : (s : Text) → (s ++ []) ≡ s
append_nil [] = refl
append_nil (c ∷ s) = ap (λ t. c ∷ t) (append_nil s)

append_assoc : (a b c : Text) → ((a ++ b) ++ c) ≡ a ++ (b ++ c)
append_assoc [] b c = refl
append_assoc (x ∷ a) b c = ap (λ t. x ∷ t) (append_assoc a b c)

trim_end_idem : (s : Text) → trim_end (trim_end s) ≡ trim_end s
unfolding trim_end
trim_end_idem [] = refl
trim_end_idem (c ∷ cs) = elim (Bool-cases (is_space c && is_blank (trim_end cs))) [
  | inl y ↦ rw y refl
  | inr n ↦ rw (n, trim_end_idem cs, n) refl
]

trim_start-starts_well :
    (s : Text) → is_blank (trim_start s) ≡ false → starts_well (trim_start s) ≡ true
unfolding trim_start
trim_start-starts_well [] h = cc
trim_start-starts_well (c ∷ cs) h = elim (Bool-cases (is_space c)) [
  | inl y ↦ rw y (
      trim_start-starts_well cs
        (subst (λ b. is_blank (if b then trim_start cs else c ∷ cs) ≡ false) y h))
  | inr n ↦ rw n (ap not n)
]

starts_well-trim_end : (s : Text) → starts_well s ≡ true → starts_well (trim_end s) ≡ true
unfolding trim_end
starts_well-trim_end [] h = cc
starts_well-trim_end (c ∷ cs) h = elim (Bool-cases (is_space c)) [
  | inl y ↦ absurd (cc (ap not y, h))
  | inr n ↦ rw n h
]

trim_end-append : (a b : Text) → trim_end b ≡ b → is_blank b ≡ false → trim_end (a ++ b) ≡ a ++ b
unfolding trim_end
trim_end-append [] b h k = h
trim_end-append (c ∷ a) b h k =
    rw (trim_end-append a b h k, is_blank-append a b k) (either (is_space c))
  where
    either : (x : Bool) → (if x && false then [] else c ∷ (a ++ b)) ≡ c ∷ (a ++ b)
    either true = refl
    either false = refl

    is_blank-append : (a b : Text) → is_blank b ≡ false → is_blank (a ++ b) ≡ false
    is_blank-append [] b k = k
    is_blank-append (c ∷ a) b k = refl

trim-of-IsWord : (w : Text) → IsWord w → trim w ≡ w
unfolding trim trim_start
trim-of-IsWord [] (h, k) = cc
trim-of-IsWord (c ∷ cs) (h, k) = elim (Bool-cases (is_space c)) [
  | inl y ↦ absurd (cc (ap not y, h))
  | inr n ↦ rw n k
]

kept : (s : Text) → is_blank (trim_end s) ≡ false → is_blank s ≡ false
unfolding trim_end
kept [] h = h
kept (c ∷ s) h = refl

trim-IsWord : (t : Text) → is_blank (trim t) ≡ false → IsWord (trim t)
unfolding trim
trim-IsWord t h = (
  starts_well-trim_end (trim_start t) (trim_start-starts_well t (kept (trim_start t) h)),
  trim_end_idem (trim_start t),
)

pub trimmed_words : (ts : List Text) → All IsWord (trimmed ts)
unfolding trimmed
trimmed_words [] = tt
trimmed_words (t ∷ ts) = elim (Bool-cases (is_blank (trim t))) [
  | inl y ↦ rw y (trimmed_words ts)
  | inr n ↦ rw n (trim-IsWord t n, trimmed_words ts)
]

pub trimmed-append : (a b : List Text) → trimmed (a ++ b) ≡ trimmed a ++ trimmed b
unfolding trimmed
trimmed-append [] b = refl
trimmed-append (t ∷ a) b = elim (Bool-cases (is_blank (trim t))) [
  | inl y ↦ rw y (trimmed-append a b)
  | inr n ↦ rw n (ap (λ ts. trim t ∷ ts) (trimmed-append a b))
]

ends-append :
    (a b : Text)
    → is_blank b ≡ false
    → does_not_want_trailing_space (a ++ b) ≡ does_not_want_trailing_space b
ends-append [] b h = refl
ends-append (c ∷ []) [] h = cc
ends-append (c ∷ []) (d ∷ b) h = refl
ends-append (c ∷ d ∷ a) b h = ends-append (d ∷ a) b h

word_not_blank : (w : Text) → IsWord w → is_blank w ≡ false
word_not_blank [] (h, k) = cc
word_not_blank (c ∷ w) h = refl

leading-append : (skip : Bool) (w x : Text) → IsWord w → leading skip (w ++ x) ≡ leading skip w
leading-append skip [] x (h, k) = cc
leading-append skip (c ∷ w) x h = refl

-- A join of words without the space before it.
bare :
    (w : Text) (ws : List Text)
    → IsWord w
    → single_space_join true (w ∷ ws) ≡ w ++ single_space_join (does_not_want_trailing_space w) ws
unfolding single_space_join
bare w ws h =
    ap (λ t. t ++ single_space_join (does_not_want_trailing_space w) ws) (trim-of-IsWord w h)

unbare :
    (skip : Bool) (w : Text) (ws : List Text)
    → single_space_join skip (w ∷ ws) ≡ leading skip w ++ single_space_join true (w ∷ ws)
unfolding single_space_join
unbare skip w ws = refl

joined_not_blank :
    (w : Text) (ws : List Text) → IsWord w → is_blank (single_space_join true (w ∷ ws)) ≡ false
joined_not_blank [] ws (h, k) = cc
joined_not_blank (c ∷ w) ws h = ap is_blank (bare (c ∷ w) ws h)

trim_end-whole :
    (w : Text) (ws : List Text)
    → IsWord w
    → All IsWord ws
    → trim_end (single_space_join true (w ∷ ws)) ≡ single_space_join true (w ∷ ws)
trim_end-whole w [] h hs =
    rw (bare w [] h)
      (unfold single_space_join in ap trim_end (append_nil w) ∙ (h.1 ∙ sym (append_nil w)))
trim_end-whole w (v ∷ ws) h (k, hs) =
    rw
      (
        bare w (v ∷ ws) h,
        unbare (does_not_want_trailing_space w) v ws,
        ← append_assoc w (leading (does_not_want_trailing_space w) v)
            (single_space_join true (v ∷ ws)),
      )
      (trim_end-append (w ++ leading (does_not_want_trailing_space w) v)
        (single_space_join true (v ∷ ws)) (trim_end-whole v ws k hs) (joined_not_blank v ws k))

starts_well-whole :
    (w : Text) (ws : List Text) → IsWord w → starts_well (single_space_join true (w ∷ ws)) ≡ true
starts_well-whole [] ws (h, k) = cc
starts_well-whole (c ∷ w) ws h = ap starts_well (bare (c ∷ w) ws h) ∙ h.0

joined-IsWord :
    (w : Text) (ws : List Text)
    → IsWord w
    → All IsWord ws
    → IsWord (single_space_join true (w ∷ ws))
joined-IsWord w ws h hs = (starts_well-whole w ws h, trim_end-whole w ws h hs)

spread :
    (skip : Bool) (w : Text) (ws : List Text)
    → IsWord w
    → single_space_join skip (w ∷ ws)
      ≡ leading skip w ++ (w ++ single_space_join (does_not_want_trailing_space w) ws)
spread skip w ws h = unbare skip w ws ∙ ap (λ t. leading skip w ++ t) (bare w ws h)

ends-whole :
    (w v : Text) (ws : List Text)
    → IsWord w
    → IsWord v
    → does_not_want_trailing_space (single_space_join true (w ∷ v ∷ ws))
      ≡ does_not_want_trailing_space (single_space_join true (v ∷ ws))
ends-whole w v ws h k =
    let lead = leading (does_not_want_trailing_space w) v in
    ap does_not_want_trailing_space (
      bare w (v ∷ ws) h
      ∙ ap (λ t. w ++ t) (unbare (does_not_want_trailing_space w) v ws)
      ∙ sym (append_assoc w lead (single_space_join true (v ∷ ws))))
    ∙ ends-append (w ++ lead) (single_space_join true (v ∷ ws)) (joined_not_blank v ws k)

-- A join goes on behind its words as behind its text.
join-append :
    (skip : Bool) (w : Text) (ws xs : List Text)
    → IsWord w
    → All IsWord ws
    → single_space_join skip (w ∷ ws)
        ++ single_space_join (does_not_want_trailing_space (single_space_join true (w ∷ ws))) xs
      ≡ single_space_join skip ((w ∷ ws) ++ xs)
unfolding single_space_join
join-append skip w [] xs h hs =
    rw
      (
        spread skip w [] h,
        bare w [] h,
        append_nil w,
        append_assoc (leading skip w) w (single_space_join (does_not_want_trailing_space w) xs),
      )
      (sym (spread skip w xs h))
join-append skip w (v ∷ ws) xs h (k, hs) =
    ap (λ c. single_space_join skip (w ∷ v ∷ ws) ++ single_space_join c xs) (ends-whole w v ws h k)
    ∙ ap (λ t. t ++ rest) (spread skip w (v ∷ ws) h)
    ∙ append_assoc (leading skip w) (w ++ single_space_join tw (v ∷ ws)) rest
    ∙ ap (λ t. leading skip w ++ t) (append_assoc w (single_space_join tw (v ∷ ws)) rest)
    ∙ ap (λ t. leading skip w ++ (w ++ t)) (join-append tw v ws xs k hs)
    ∙ sym (spread skip w (v ∷ (ws ++ xs)) h)
  where
    tw : Bool
    tw = does_not_want_trailing_space w

    rest : Text
    rest = single_space_join (does_not_want_trailing_space (single_space_join true (v ∷ ws))) xs

trimmed-IsWord : (w : Text) (ts : List Text) → IsWord w → trimmed (w ∷ ts) ≡ w ∷ trimmed ts
unfolding trimmed
trimmed-IsWord w ts h = rw (trim-of-IsWord w h, word_not_blank w h) refl

splice_nothing :
    (skip : Bool) (ts : List Text)
    → single_space_join skip (trimmed (single_space_join true [] ∷ ts))
      ≡ single_space_join skip (trimmed ts)
unfolding single_space_join trimmed
splice_nothing skip ts = refl

-- A text that was whole from words counts as these words.
pub splice :
    (skip : Bool) (ws : List Text) (ts : List Text)
    → All IsWord ws
    → single_space_join skip (trimmed (single_space_join true ws ∷ ts))
      ≡ single_space_join skip (ws ++ trimmed ts)
splice skip [] ts h = splice_nothing skip ts
splice skip (w ∷ ws) ts (h, hs) =
    ap (single_space_join skip) (trimmed-IsWord whole ts word)
    ∙ spread skip whole (trimmed ts) word
    ∙ sym (
        append_assoc (leading skip whole) whole
          (single_space_join (does_not_want_trailing_space whole) (trimmed ts)))
    ∙ ap (λ t. (t ++ whole) ++ single_space_join (does_not_want_trailing_space whole) (trimmed ts))
        (ap (leading skip) (bare w ws h)
          ∙ leading-append skip w (single_space_join (does_not_want_trailing_space w) ws) h)
    ∙ ap (λ t. t ++ single_space_join (does_not_want_trailing_space whole) (trimmed ts))
        (sym (unbare skip w ws))
    ∙ join-append skip w ws (trimmed ts) h hs
  where
    whole : Text
    whole = single_space_join true (w ∷ ws)

    word : IsWord (single_space_join true (w ∷ ws))
    word = joined-IsWord w ws h hs
