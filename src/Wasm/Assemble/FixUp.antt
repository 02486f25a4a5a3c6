-- ===== src/Wasm/Assemble/FixUp.antt =====
-- The loop of `fixUpfakeBranch` finishes the text that `Assemble` describes.
use mathlib.Core.List.{append_assoc}
use tiny_wasm.Base.{
  ℕ, suc, ◌*◌, ◌≡◌, refl, ap, ◌∙◌, true, false, List, [], ◌∷◌, ◌++◌, arith, length, length-append,
  take-append, drop-append, ltb-false, Bool-cases, inl, inr,
}
use tiny_wasm.Base.Int.{ℤ}
use tiny_wasm.Base.Result.{Result, ok, err, ◌>>=◌, Returns, Returns-bind, Result-cases}
use tiny_wasm.Base.Text.{Text, text, text_eq, substr_from, replace}
use tiny_wasm.Opcode.IsWord.{IsWord, encode_branch-IsWord, encode_branch_condition-IsWord}
use tiny_wasm.Utils.Hex.{hex_pad}
use tiny_wasm.Utils.Hex.Length.{length-hex_pad}
use tiny_wasm.Wasm.Types.{at, cond_table}
use tiny_wasm.Wasm.Branch.{encode_fixed, displacement, fix_up_one, fix_up_all}
use tiny_wasm.Wasm.Assemble.{Item, word, branch, items_text, entries, items_fixed}

pub encode_fixed-IsWord : (b : Text) (z : ℤ) → Returns IsWord (encode_fixed b z)
unfolding encode_fixed
encode_fixed-IsWord b z = elim (Bool-cases (text_eq b (text "b"))) [
  | inl e ↦ rw e (encode_branch-IsWord z false true)
  | inr e ↦ rw e (elim (Bool-cases (text_eq b (text "bl"))) [
    | inl f ↦ rw f (encode_branch-IsWord z true true)
    | inr f ↦ rw f (
        Returns-bind IsWord (substr_from b 1) _
          λ c. Returns-bind IsWord (at cond_table c) _ λ v. encode_branch_condition-IsWord z v true)
  ])
]

-- Eight characters behind a prefix of length `p` are exchanged.
pub replace_middle :
    (pre old rest new : Text) (p : ℕ)
    → length pre ≡ p
    → length old ≡ 8
    → replace (pre ++ (old ++ rest)) p 8 new ≡ ok (pre ++ (new ++ rest))
replace_middle pre old rest new p e f = rw (
  ltb-false (length (pre ++ (old ++ rest))) p (omega (arith, length-append {0} pre (old ++ rest))),
  take-append p pre (old ++ rest) e,
  drop-append p pre (old ++ rest) e,
  drop-append 8 old rest f,
)

regroup :
    (m : Result Text) (pre t : Text)
    → (m >>= λ r. ok ((pre ++ t) ++ r)) ≡ (m >>= (λ ts. ok (t ++ ts)) >>= λ r. ok (pre ++ r))
regroup (ok a) pre t = rw append_assoc
regroup (err e) pre t = refl

pub length-next :
    (pre t : Text) (n : ℕ) → length pre ≡ n * 8 → length t ≡ 8 → length (pre ++ t) ≡ suc n * 8
length-next pre t n e f = omega (arith, length-append {0} pre t)

-- The rest of the loop, once the eight digits `t` of an item are in place.
module _ (labels : List (Text × ℕ)) (is : List Item) (n : ℕ) where
  abbrev Finishes : Type 0
  Finishes =
      (pre : Text)
      → length pre ≡ n * 8
      → fix_up_all labels (entries n is) (pre ++ items_text is)
        ≡ (items_fixed labels n is >>= λ t. ok (pre ++ t))

  finishes_behind :
      Finishes
      → (pre t : Text) → length (pre ++ t) ≡ n * 8
      → fix_up_all labels (entries n is) (pre ++ (t ++ items_text is))
        ≡ (items_fixed labels n is >>= (λ ts. ok (t ++ ts)) >>= λ r. ok (pre ++ r))
  finishes_behind ih pre t e =
      rw (append_assoc pre t (items_text is)) at (ih (pre ++ t) e)
      ∙ regroup (items_fixed labels n is) pre t

-- A branch that the encoder takes or refuses.
fix_up_branch :
    (labels : List (Text × ℕ)) (l b : Text) (is : List Item) (n : ℕ)
    → Finishes labels is (suc n)
    → Finishes labels (branch l b ∷ is) n
unfolding fix_up_all fix_up_one
fix_up_branch labels l b is n ih pre e =
    elim (Result-cases (encode_fixed b (displacement labels l (n * 8)))) [
      | inr (x, p) ↦ rw p refl
      | inl (t, p) ↦
          let isw = encode_fixed-IsWord b (displacement labels l (n * 8)) t p in
          let f : length t ≡ 8 = ap length isw.1 ∙ length-hex_pad 8 isw.0 in
          rw (p, replace_middle pre (text "FFFFFFFF") (items_text is) t (n * 8) e refl)
            (finishes_behind labels is (suc n) ih pre t (length-next pre t n e f))
    ]

-- In the order of insertion: with the prefix `pre` of `n` finished words, the loop finishes the items
-- behind it, or throws.
pub fix_up_all-entries :
    (labels : List (Text × ℕ)) (is : List Item) (n : ℕ) (pre : Text)
    → length pre ≡ n * 8
    → fix_up_all labels (entries n is) (pre ++ items_text is)
      ≡ (items_fixed labels n is >>= λ t. ok (pre ++ t))
fix_up_all-entries labels [] n pre e = unfold fix_up_all in refl
fix_up_all-entries labels (word x ∷ is) n pre e =
    finishes_behind labels is (suc n) (fix_up_all-entries labels is (suc n)) pre (hex_pad 8 x)
      (length-next pre (hex_pad 8 x) n e (length-hex_pad 8 x))
fix_up_all-entries labels (branch l b ∷ is) n pre e =
    fix_up_branch labels l b is n (fix_up_all-entries labels is (suc n)) pre e
