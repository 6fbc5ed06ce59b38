-- ===== src/DevTools/HunkLines.antt =====
-- What the lines of a hunk take from the source and put into the output.
use virtiz_ai.Common.{
  suc, ◌≡◌, refl, sym, ap, ◌∙◌, true, List, [], ◌∷◌, ◌++◌, ◌+◌, arith, if◌then◌else◌, nat_eq,
  length, ok, ensure-ok, ok-injective, bind-ok, ◌>>=◌, length-append, inl, inr, Bool-cases,
  Result-cases, List-cases,
}
use mathlib.Core.Path.{subst}
use mathlib.Core.List.{append_assoc, append-nil}
use virtiz_ai.DevTools.{Text, failure, Outcome}
use virtiz_ai.DevTools.Patch.{Walk, matched, emitted, line_step, ends_hunk, hunk_lines, texts_eq}

-- the old and the new side of the lines of a hunk
abbrev pub old_side : List Text → List Text
old_side [] = []
old_side ([] ∷ ls) = old_side ls
old_side ((c ∷ t) ∷ ls) = let rest = old_side ls in if nat_eq c 43 then rest else t ∷ rest

abbrev pub new_side : List Text → List Text
new_side [] = []
new_side ([] ∷ ls) = new_side ls
new_side ((c ∷ t) ∷ ls) = let rest = new_side ls in if nat_eq c 45 then rest else t ∷ rest

texts_eq_sound : (x y : Text) → texts_eq x y ≡ true → x ≡ y
texts_eq_sound [] [] h = refl
texts_eq_sound [] (y ∷ ys) h = absurd (cc)
texts_eq_sound (x ∷ xs) [] h = absurd (cc)
texts_eq_sound (x ∷ xs) (y ∷ ys) h =
    let e = texts_eq_sound xs ys (ground arith) in let f : x ≡ y = ground arith in cc

-- how lines of a hunk take one walk to another
pub record Takes (body : List Text) (w v : Walk) : Type 0 where
  pub old : w.ahead ≡ old_side body ++ v.ahead
  pub new : v.output ≡ w.output ++ new_side body
  pub old_count : v.old_seen ≡ w.old_seen + length (old_side body)
  pub new_count : v.new_seen ≡ w.new_seen + length (new_side body)
  pub place : v.cursor ≡ w.cursor + length (old_side body)

matched-ok :
    (t : Text) (w v : Walk)
    → matched t w ≡ ok v
    → (ls : List Text) × (w.ahead ≡ t ∷ ls)
      × (v ≡ record w { ahead = ls; cursor = suc w.cursor; old_seen = suc w.old_seen })
matched-ok t w v h = elim (List-cases w.ahead) [
  | inl e ↦ absurd (cc (rw (matched, e) at h))
  | inr (l, ls, e) ↦
      let (f, g) =
        ensure-ok (texts_eq l t) (failure "Patch check failed") _ v (rw (matched, e) at h) in
      (ls, e ∙ ap (λ z. z ∷ ls) (texts_eq_sound l t f), sym (ok-injective _ v g))
]

both-Takes :
    (t : Text) (w v : Walk)
    → (matched t w >>= λ u. ok (emitted t u)) ≡ ok v
    → Takes ((32 ∷ t) ∷ []) w v
both-Takes t w v h =
    let (u, m, g) = bind-ok (matched t w) (λ u. ok (emitted t u)) v h in
    let (ls, a, q) = matched-ok t w u m in
    subst (Takes ((32 ∷ t) ∷ []) w) (ap (emitted t) (sym q) ∙ ok-injective (emitted t u) v g)
      (record {
        old = a;
        new = refl;
        old_count = omega arith;
        new_count = omega arith;
        place = omega arith;
      })

minus-Takes : (t : Text) (w v : Walk) → matched t w ≡ ok v → Takes ((45 ∷ t) ∷ []) w v
minus-Takes t w v h =
    let (ls, a, q) = matched-ok t w v h in
    subst (Takes ((45 ∷ t) ∷ []) w) (sym q) (record {
      old = a;
      new = sym (append-nil w.output);
      old_count = omega arith;
      new_count = omega arith;
      place = omega arith;
    })

plus-Takes : (t : Text) (w : Walk) → Takes ((43 ∷ t) ∷ []) w (emitted t w)
plus-Takes t w = record {
  old = refl;
  new = refl;
  old_count = omega arith;
  new_count = omega arith;
  place = omega arith;
}

line_step-Takes : (l : Text) (w v : Walk) → line_step l w ≡ ok v → Takes (l ∷ []) w v
line_step-Takes [] w v h = absurd (cc)
line_step-Takes (c ∷ t) w v h = elim (Bool-cases (nat_eq c 32)) [
  | inl e ↦
      let f : 32 ≡ c = ground arith in
      subst (λ z. Takes ((z ∷ t) ∷ []) w v) f (both-Takes t w v (rw e at h))
  | inr e ↦ elim (Bool-cases (nat_eq c 45)) [
    | inl f ↦
        let g : 45 ≡ c = ground arith in
        subst (λ z. Takes ((z ∷ t) ∷ []) w v) g (minus-Takes t w v (rw (e, f) at h))
    | inr f ↦ elim (Bool-cases (nat_eq c 43)) [
      | inl g ↦
          let k : 43 ≡ c = ground arith in
          subst (λ z. Takes ((z ∷ t) ∷ []) w v) k
            (subst (Takes ((43 ∷ t) ∷ []) w) (ok-injective (emitted t w) v (rw (e, f, g) at h))
              (plus-Takes t w))
      | inr g ↦ absurd (cc (rw (e, f, g) at h))
    ]
  ]
]

old_side-cons : (l : Text) (ls : List Text) → old_side (l ∷ ls) ≡ old_side (l ∷ []) ++ old_side ls
old_side-cons [] ls = refl
old_side-cons (c ∷ t) ls = elim (Bool-cases (nat_eq c 43)) [ inl e ↦ rw e refl | inr e ↦ rw e refl ]

new_side-cons : (l : Text) (ls : List Text) → new_side (l ∷ ls) ≡ new_side (l ∷ []) ++ new_side ls
new_side-cons [] ls = refl
new_side-cons (c ∷ t) ls = elim (Bool-cases (nat_eq c 45)) [ inl e ↦ rw e refl | inr e ↦ rw e refl ]

Takes-cons :
    (l : Text) (ls : List Text) (w u v : Walk)
    → Takes (l ∷ []) w u
    → Takes ls u v
    → Takes (l ∷ ls) w v
Takes-cons l ls w u v a b =
    let o = old_side-cons l ls in
    let n = new_side-cons l ls in
    let lo = ap length o ∙ length-append (old_side (l ∷ [])) (old_side ls) in
    let ln = ap length n ∙ length-append (new_side (l ∷ [])) (new_side ls) in
    record {
      old =
          a.old
          ∙ ap (λ z. old_side (l ∷ []) ++ z) b.old
          ∙ sym (append_assoc (old_side (l ∷ [])) (old_side ls) v.ahead)
          ∙ ap (λ z. z ++ v.ahead) (sym o);
      new =
          b.new
          ∙ ap (λ z. z ++ new_side ls) a.new
          ∙ append_assoc w.output (new_side (l ∷ [])) (new_side ls)
          ∙ ap (λ z. w.output ++ z) (sym n);
      old_count = let x = a.old_count in let y = b.old_count in omega arith;
      new_count = let x = a.new_count in let y = b.new_count in omega arith;
      place = let x = a.place in let y = b.place in omega arith;
    }

Takes-nil : (w : Walk) → Takes [] w w
Takes-nil w = record {
  old = refl;
  new = sym (append-nil w.output);
  old_count = omega arith;
  new_count = omega arith;
  place = omega arith;
}

no_lines-Takes :
    (ls : List Text) (w v : Walk) (rest : List Text)
    → ◌≡◌ {A = Outcome (Walk × List Text)} (ok (w, ls)) (ok (v, rest))
    → (body : List Text) × (ls ≡ body ++ rest) × Takes body w v
no_lines-Takes ls w v rest h =
    let q = ok-injective (w, ls) (v, rest) h in
    ([], ap (λ z. z.1) q, subst (Takes [] w) (ap (λ z. z.0) q) (Takes-nil w))

pub hunk_lines-Takes :
    (ls : List Text) (w v : Walk) (rest : List Text)
    → hunk_lines ls w ≡ ok (v, rest)
    → (body : List Text) × (ls ≡ body ++ rest) × Takes body w v
unfolding hunk_lines
hunk_lines-Takes [] w v rest h = no_lines-Takes [] w v rest h
hunk_lines-Takes (l ∷ ls) w v rest h = elim (Bool-cases (ends_hunk l)) [
  | inl e ↦ no_lines-Takes (l ∷ ls) w v rest (rw (hunk_lines, e) at h)
  | inr e ↦ elim (Result-cases (line_step l w)) [
    | inl (u, f) ↦
        let (body, p, t) = hunk_lines-Takes ls u v rest (rw (hunk_lines, e, f) at h) in
        (l ∷ body, ap (λ z. l ∷ z) p, Takes-cons l body w u v (line_step-Takes l w u f) t)
    | inr (x, f) ↦ absurd (cc (rw (hunk_lines, e, f) at h))
  ]
]
