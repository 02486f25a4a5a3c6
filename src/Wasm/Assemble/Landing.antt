-- ===== src/Wasm/Assemble/Landing.antt =====
-- Where the branches of the finished text lead.
use native.Mathlib.Nat.{mod-lt}
use tiny_wasm.Base.{
  ℕ, suc, ◌+◌, ◌*◌, ◌/◌, ◌%◌, ◌^◌, ◌≤◌, ◌<◌, ◌≡◌, refl, sym, ap, ◌∙◌, ◌⊎◌, inl, inr, Bool, true,
  false, List, [], ◌∷◌, ◌++◌, length, arith, bit, drop, ltb, if◌then◌else◌, Bool-cases,
}
use tiny_wasm.Base.Int.{ℤ, sub_ℕ, signed, low_bits}
use tiny_wasm.Base.Result.{ok, err, out_of_range, bind-returned}
use tiny_wasm.Base.Text.{Text, text, text_eq, substr_from}
use tiny_wasm.Opcode.Fields.{field_of, word_text}
use tiny_wasm.Opcode.Branch.{encode_branch, encode_branch_condition}
use tiny_wasm.Opcode.Layout.Branch.{encode_branch-word, encode_branch_condition-word}
use tiny_wasm.Utils.Hex.{hex_pad}
use tiny_wasm.Wasm.Types.{index_or, at, cond_table}
use tiny_wasm.Wasm.Branch.{displacement, encode_fixed}
use tiny_wasm.Wasm.Assemble.{Item, word, branch, items_fixed}
use tiny_wasm.Wasm.Assemble.Laid.{AreLabels}

-- For a label in front of instruction `k`, that is at digit `k * 8`, the displacement of a branch
-- that is instruction `n` is `k - n`.
pub displacement-instructions :
    (labels : List (Text × ℕ)) (l : Text) (k n : ℕ)
    → index_or labels l 0 ≡ k * 8
    → displacement labels l (n * 8) ≡ sub_ℕ k n
displacement-instructions labels l k n e = rw e (ground arith)

-- B and BL from instruction `n` to instruction `k`, both at most 2 ^ 25, the target below: the word
-- starts with the code of the instruction, and its 26 low bits, read in two's complement, are `k - n`.
pub encode_branch-lands :
    (k n : ℕ) (link : Bool)
    → k < 2 ^ 25
    → n ≤ 2 ^ 25
    → (w : ℕ) × (encode_branch (sub_ℕ k n) link true ≡ ok (word_text true w))
      × (w / 2 ^ 26 ≡ bit link * 32 + 0b101)
      × (signed 26 (w % 2 ^ 26) ≡ sub_ℕ k n)
encode_branch-lands k n link hk hn =
    let f = field_of (sub_ℕ k n) 26 in
    let small : f < 2 ^ 26 = mod-lt (low_bits (sub_ℕ k n) 64) (omega arith) in
    let back : signed 26 f ≡ sub_ℕ k n = ground arith in
    let low : (bit link * 2 ^ 31 + 0b101 * 2 ^ 26 + f) % 2 ^ 26 ≡ f = omega arith in
    (
      bit link * 2 ^ 31 + 0b101 * 2 ^ 26 + f,
      encode_branch-word (sub_ℕ k n) link true (ground arith),
      omega arith,
      ap (signed 26) low ∙ back,
    )

-- B.cond from instruction `n` to instruction `k`, both at most 2 ^ 18, the target below: the word
-- has the code of the instruction and the condition, and the 19 bits above that, read in two's
-- complement, are `k - n`.
pub encode_branch_condition-lands :
    (k n cond : ℕ)
    → k < 2 ^ 18
    → n ≤ 2 ^ 18
    → cond < 16
    → (w : ℕ) × (encode_branch_condition (sub_ℕ k n) cond true ≡ ok (word_text true w))
      × (w / 2 ^ 24 ≡ 0b01010100)
      × (w % 16 ≡ cond)
      × (signed 19 (w / 2 ^ 5 % 2 ^ 19) ≡ sub_ℕ k n)
encode_branch_condition-lands k n cond hk hn hc =
    let f = field_of (sub_ℕ k n) 19 in
    let small : f < 2 ^ 19 = mod-lt (low_bits (sub_ℕ k n) 64) (omega arith) in
    let back : signed 19 f ≡ sub_ℕ k n = ground arith in
    let low : (0b01010100 * 2 ^ 24 + f * 2 ^ 5 + cond) / 2 ^ 5 % 2 ^ 19 ≡ f = omega arith in
    (
      0b01010100 * 2 ^ 24 + f * 2 ^ 5 + cond,
      encode_branch_condition-word (sub_ℕ k n) cond true (ground arith) hc,
      omega arith,
      omega arith,
      ap (signed 19) low ∙ back,
    )

-- The conditions by their names, as in the Arm manual.
abbrev pub conditions : List (Text × ℕ)
conditions =
    (text "eq", 0)
    ∷ (text "ne", 1)
    ∷ (text "cs", 2)
    ∷ (text "cc", 3)
    ∷ (text "mi", 4)
    ∷ (text "pl", 5)
    ∷ (text "vs", 6)
    ∷ (text "vc", 7)
    ∷ (text "hi", 8)
    ∷ (text "ls", 9)
    ∷ (text "ge", 10)
    ∷ (text "lt", 11)
    ∷ (text "gt", 12)
    ∷ (text "le", 13)
    ∷ (text "al", 14)
    ∷ (text "nv", 15)
    ∷ []

-- The word of a branch by `z` instructions: B, BL, or B with the condition that the rest of the name gives.
abbrev pub IsBranch : Text → ℤ → ℕ → Type 0
IsBranch b z w =
    ((b ≡ text "b") × (w / 2 ^ 26 ≡ 0b000101) × (signed 26 (w % 2 ^ 26) ≡ z))
    ⊎ ((b ≡ text "bl") × (w / 2 ^ 26 ≡ 0b100101) × (signed 26 (w % 2 ^ 26) ≡ z))
    ⊎ ((c : ℕ) × (at conditions (drop 1 b) ≡ ok c)
        × (w / 2 ^ 24 ≡ 0b01010100)
        × (w % 16 ≡ c)
        × (signed 19 (w / 2 ^ 5 % 2 ^ 19) ≡ z))

-- The instruction in front of which a label stands; one that is nowhere counts as the first.
abbrev pub IsPlace : List (Text × ℕ) → Text → ℕ → Type 0
IsPlace labels l k = (at labels l ≡ ok (k * 8)) ⊎ ((at labels l ≡ err out_of_range) × (k ≡ 0))

-- The text of the items from number `n` on: the digits of each word, and each branch as the word that
-- leads from its place to the place of its label.
abbrev pub Lands : List (Text × ℕ) → ℕ → List Item → Text → Type 0
Lands labels n [] t = t ≡ []
Lands labels n (word x ∷ is) t =
    (rest : Text) × (t ≡ hex_pad 8 x ++ rest) × Lands labels (suc n) is rest
Lands labels n (branch l b ∷ is) t =
    (k w : ℕ) × (rest : Text) × (t ≡ word_text true w ++ rest)
    × IsPlace labels l k
    × IsBranch b (sub_ℕ k n) w
    × Lands labels (suc n) is rest

text_eq_sound : (s t : Text) → text_eq s t ≡ true → s ≡ t
text_eq_sound [] [] h = refl
text_eq_sound [] (y ∷ t) h = cc
text_eq_sound (x ∷ s) [] h = cc
text_eq_sound (x ∷ s) (y ∷ t) h =
    let both : (x ≡ y) × (text_eq s t ≡ true) = ground arith in
    let rest = text_eq_sound s t both.1 in (λ i. both.0 i ∷ rest i)

-- A label of the invariant has a place.
place_of :
    (labels : List (Text × ℕ)) (l : Text) (size : ℕ)
    → AreLabels size labels
    → (k : ℕ) × IsPlace labels l k × (index_or labels l 0 ≡ k * 8) × (k ≤ size)
unfolding at index_or
place_of [] l size h = (0, inr (refl, refl), refl, omega arith)
place_of ((j, v) ∷ m) l size ((k, e, q), h) = elim (Bool-cases (text_eq j l)) [
  | inl f ↦ (k, inl (rw f (ap ok e)), rw f e, q)
  | inr f ↦
      let (k', p, i, q') = place_of m l size h in
      (k', elim p [ inl a ↦ inl (rw f a) | inr (a, b) ↦ inr (rw f a, b) ], rw f i, q')
]

abbrev AreBelow : List (Text × ℕ) → Type 0
AreBelow [] = Unit
AreBelow ((j, v) ∷ m) = (v < 16) × AreBelow m

at-below : (m : List (Text × ℕ)) (l : Text) (c : ℕ) → AreBelow m → at m l ≡ ok c → c < 16
unfolding at
at-below [] l c b h = absurd (cc)
at-below ((j, v) ∷ m) l c (small, b) h = elim (Bool-cases (text_eq j l)) [
  | inl f ↦ let same : v ≡ c = cc in omega arith
  | inr f ↦ at-below m l c b (rw f at h)
]

substr_from-drop : (s t : Text) (n : ℕ) → substr_from s n ≡ ok t → drop n s ≡ t
substr_from-drop s t n h = which (ltb (length s) n) h
  where
    which : (b : Bool) → (if b then err out_of_range else ok (drop n s)) ≡ ok t → drop n s ≡ t
    which true p = absurd (cc)
    which false p = cc

-- A branch that the encoder takes.
encode_fixed-IsBranch :
    (b : Text) (k n : ℕ) (t : Text)
    → k < 2 ^ 18
    → n < 2 ^ 18
    → encode_fixed b (sub_ℕ k n) ≡ ok t
    → (w : ℕ) × (t ≡ word_text true w) × IsBranch b (sub_ℕ k n) w
unfolding encode_fixed
encode_fixed-IsBranch b k n t hk hn h = elim (Bool-cases (text_eq b (text "b"))) [
  | inl e ↦
      let (w, made, high, low) = encode_branch-lands k n false (omega arith) (omega arith) in
      let same : ok t ≡ ok (word_text true w) = sym (rw e at h) ∙ made in
      (w, cc, inl (text_eq_sound b (text "b") e, high, low))
  | inr e ↦ elim (Bool-cases (text_eq b (text "bl"))) [
    | inl f ↦
        let (w, made, high, low) = encode_branch-lands k n true (omega arith) (omega arith) in
        let same : ok t ≡ ok (word_text true w) = sym (rw (e, f) at h) ∙ made in
        (w, cc, inr (inl (text_eq_sound b (text "bl") f, high, low)))
    | inr f ↦
        let (s, cut, h1) = bind-returned (substr_from b 1) _ (rw (e, f) at h) in
        let (c, cond, h2) = bind-returned (at cond_table s) _ h1 in
        let small = at-below cond_table s c (omega arith) cond in
        let (w, made, high, low, back) =
          encode_branch_condition-lands k n c hk (omega arith) small in
        let same : ok t ≡ ok (word_text true w) = sym h2 ∙ made in
        let named : at conditions (drop 1 b) ≡ ok c =
          ap (at conditions) (substr_from-drop b s 1 cut) ∙ cond in
        (w, cc, inr (inr (c, named, high, low, back)))
  ]
]

pub items_fixed-Lands :
    (labels : List (Text × ℕ)) (size : ℕ) (is : List Item) (n : ℕ) (t : Text)
    → AreLabels size labels
    → size < 2 ^ 18
    → n + length is ≤ size
    → items_fixed labels n is ≡ ok t
    → Lands labels n is t
items_fixed-Lands labels size [] n t a small inside h = cc
items_fixed-Lands labels size (word x ∷ is) n t a small inside h =
    let (ts, made, last) = bind-returned (items_fixed labels (suc n) is) _ h in
    (ts, cc, items_fixed-Lands labels size is (suc n) ts a small (omega arith) made)
items_fixed-Lands labels size (branch l b ∷ is) n t a small inside h =
    let (one, first, more) = bind-returned (encode_fixed b (displacement labels l (n * 8))) _ h in
    let (ts, made, last) = bind-returned (items_fixed labels (suc n) is) _ more in
    let (k, place, index, below) = place_of labels l size a in
    let (w, text_of, leads) =
      encode_fixed-IsBranch b k n one (omega arith) (omega arith)
        (ap (encode_fixed b) (sym (displacement-instructions labels l k n index)) ∙ first) in
    let joined : one ++ ts ≡ t = cc in
    (
      k,
      w,
      ts,
      sym joined ∙ ap (λ o. o ++ ts) text_of,
      place,
      leads,
      items_fixed-Lands labels size is (suc n) ts a small (omega arith) made,
    )
