-- ===== src/DevTools/Patched.antt =====
-- virtizai_core/dev_tools.py: what the hunks of `_apply_patch` make of the lines of a file.
use virtiz_ai.Common.{
  ℕ, zero, suc, ◌≡◌, refl, sym, ap, ◌∙◌, true, ◌&&◌, Option, some, List, [], ◌∷◌, ◌++◌, ◌-◌, ◌+◌,
  arith, nat_eq, leb, length, take, ok, ensure-ok, ensure_some-ok, ok-injective, bind-ok, inl, inr,
  Bool-cases, Result-cases, All,
}
use mathlib.Core.Path.{subst}
use mathlib.Core.Option.{some-injective}
use mathlib.Core.List.{append_assoc, append-nil}
use virtiz_ai.DevTools.{Text, failure, Outcome}
use virtiz_ai.DevTools.Inspected.{take-drop}
use virtiz_ai.DevTools.Patch.{
  Header, Walk, opened, hunk_lines, hunk, header_and_hunk, hunks, starts, header_of, malformed_hunk,
}
use virtiz_ai.DevTools.HunkLines.{old_side, new_side, hunk_lines-Takes}

-- a hunk: its header and lines in the patch, and the lines before it that it leaves as they are
pub record Segment : Type 0 where
  pub header : Text
  pub body : List Text
  pub kept : List Text

-- the lines of the patch, of the source and of the output that hunks stand for
abbrev pub written : List Segment → List Text
written [] = []
written (s ∷ ss) = s.header ∷ (s.body ++ written ss)

abbrev pub source_of : List Segment → List Text
source_of [] = []
source_of (s ∷ ss) = s.kept ++ (old_side s.body ++ source_of ss)

abbrev pub result_of : List Segment → List Text
result_of [] = []
result_of (s ∷ ss) = s.kept ++ (new_side s.body ++ result_of ss)

-- the header is one, and gives the lengths of the two sides
abbrev pub IsCounted : (ℕ → Option ℕ) → Segment → Type 0
IsCounted decimal s =
    (h : Header) × (header_of decimal s.header ≡ some h)
    × (length (old_side s.body) ≡ h.old_count)
    × (length (new_side s.body) ≡ h.new_count)

-- hunks that take one walk to another
pub record Rewrites (decimal : ℕ → Option ℕ) (ls rest : List Text) (w v : Walk) (n m : ℕ)
    : Type 0 where
  pub segments : List Segment
  pub counted : All (IsCounted decimal) segments
  pub lines : ls ≡ written segments ++ rest
  pub before : w.ahead ≡ source_of segments ++ v.ahead
  pub after : v.output ≡ w.output ++ result_of segments
  pub number : m ≡ n + length segments

regroup : (a b c d : List Text) → a ++ (b ++ (c ++ d)) ≡ (a ++ (b ++ c)) ++ d
regroup a b c d = sym (append_assoc a (b ++ c) d ∙ ap (λ z. a ++ z) (append_assoc b c d))

module _ (decimal : ℕ → Option ℕ) where
  -- one hunk
  pub record Hunk (l : Text) (ls : List Text) (w v : Walk) (rest : List Text) : Type 0 where
    pub segment : Segment
    pub header : segment.header ≡ l
    pub counted : IsCounted decimal segment
    pub lines : ls ≡ segment.body ++ rest
    pub before : w.ahead ≡ segment.kept ++ (old_side segment.body ++ v.ahead)
    pub after : v.output ≡ w.output ++ (segment.kept ++ new_side segment.body)

  record Opens (w u : Walk) : Type 0 where
    kept : List Text
    ahead : w.ahead ≡ kept ++ u.ahead
    output : u.output ≡ w.output ++ kept
    none_seen : (u.old_seen ≡ 0) × (u.new_seen ≡ 0)

  opened-Opens : (h : Header) (w u : Walk) → opened h w ≡ ok u → Opens w u
  opened-Opens h w u e =
      let (_, f) =
        ensure-ok (leb 1 h.old_start && leb w.cursor (h.old_start - 1))
          (failure "Invalid patch hunk") _ u e in
      subst (Opens w) (ok-injective _ u f) (record {
        kept = take (h.old_start - 1 - w.cursor) w.ahead;
        ahead = take-drop (h.old_start - 1 - w.cursor) w.ahead;
        output = refl;
        none_seen = (refl, refl);
      })

  closed-Hunk :
      (h : Header) (l : Text) (ls : List Text) (w u v : Walk) (rest : List Text)
      → header_of decimal l ≡ some h
      → Opens w u
      → hunk_lines ls u ≡ ok (v, rest)
      → nat_eq v.old_seen h.old_count && nat_eq v.new_seen h.new_count ≡ true
      → Hunk l ls w v rest
  closed-Hunk h l ls w u v rest e o b c =
      let (body, p, t) = hunk_lines-Takes ls u v rest b in
      let (zero_old, zero_new) = o.none_seen in
      let old = t.old_count in
      let new = t.new_count in
      record {
        segment = record { header = l; body = body; kept = o.kept };
        header = refl;
        counted = (h, e, ground arith, ground arith);
        lines = p;
        before = o.ahead ∙ ap (λ z. o.kept ++ z) t.old;
        after =
            t.new
            ∙ ap (λ z. z ++ new_side body) o.output
            ∙ append_assoc w.output o.kept (new_side body);
      }

  pub header_and_hunk-Hunk :
      (l : Text) (ls : List Text) (w v : Walk) (rest : List Text)
      → header_and_hunk decimal l ls w ≡ ok (v, rest)
      → Hunk l ls w v rest
  header_and_hunk-Hunk l ls w v rest k =
      let (h, e, k1) =
        ensure_some-ok (header_of decimal l) malformed_hunk (λ h. hunk h ls w) (v, rest) k in
      let (u, o, k2) = bind-ok (opened h w) _ (v, rest) k1 in
      let (x, b, k3) = bind-ok (hunk_lines ls u) _ (v, rest) k2 in
      let (c, k4) =
        ensure-ok (nat_eq x.0.old_seen h.old_count && nat_eq x.0.new_seen h.new_count)
          malformed_hunk _ (v, rest) k3 in
      let q = ok-injective x (v, rest) k4 in
      closed-Hunk h l ls w u v rest e (opened-Opens h w u o) (b ∙ ap ok q)
        (ap (λ z. nat_eq z.0.old_seen h.old_count && nat_eq z.0.new_seen h.new_count) (sym q) ∙ c)

  Rewrites-nil : (ls : List Text) (w : Walk) (n : ℕ) → Rewrites decimal ls ls w w n n
  Rewrites-nil ls w n = record {
    segments = [];
    counted = tt;
    lines = refl;
    before = refl;
    after = sym (append-nil w.output);
    number = omega arith;
  }

  Rewrites-cons :
      (l : Text) (ls mid rest : List Text) (w u v : Walk) (n m : ℕ)
      → Hunk l ls w u mid
      → Rewrites decimal mid rest u v (suc n) m
      → Rewrites decimal (l ∷ ls) rest w v n m
  Rewrites-cons l ls mid rest w u v n m a b =
      let s = a.segment in
      let ss = b.segments in
      record {
        segments = s ∷ ss;
        counted = (a.counted, b.counted);
        lines =
            ap (λ z. z ∷ ls) (sym a.header)
            ∙ ap (λ z. s.header ∷ z)
                (a.lines
                  ∙ ap (λ z. s.body ++ z) b.lines
                  ∙ sym (append_assoc s.body (written ss) rest));
        before =
            a.before
            ∙ ap (λ z. s.kept ++ (old_side s.body ++ z)) b.before
            ∙ regroup s.kept (old_side s.body) (source_of ss) v.ahead;
        after =
            b.after
            ∙ ap (λ z. z ++ result_of ss) a.after
            ∙ append_assoc w.output (s.kept ++ new_side s.body) (result_of ss)
            ∙ ap (λ z. w.output ++ z) (append_assoc s.kept (new_side s.body) (result_of ss));
        number = let e = b.number in omega arith;
      }

  done :
      (ls : List Text) (w v : Walk) (n m : ℕ) (rest : List Text)
      → ◌≡◌ {A = Option (Outcome ((Walk × ℕ) × List Text))}
          (some (ok ((w, n), ls)))
          (some (ok ((v, m), rest)))
      → Rewrites decimal ls rest w v n m
  done ls w v n m rest h =
      let q = ok-injective _ _ (some-injective _ _ h) in
      subst (λ z. Rewrites decimal ls z.1 w z.0.0 n z.0.1) q (Rewrites-nil ls w n)

  -- The hunks of a file, once they are accepted, are segments of the patch, each with a header that counts its
  -- two sides; the source is the lines between them with the old sides, and the output the same lines with
  -- the new sides in their place.
  pub hunks-Rewrites :
      (fuel : ℕ) (ls : List Text) (w v : Walk) (n m : ℕ) (rest : List Text)
      → hunks decimal fuel ls w n ≡ some (ok ((v, m), rest))
      → Rewrites decimal ls rest w v n m
  unfolding hunks
  hunks-Rewrites zero ls w v n m rest h = absurd (cc)
  hunks-Rewrites (suc fuel) [] w v n m rest h = done [] w v n m rest h
  hunks-Rewrites (suc fuel) (l ∷ ls) w v n m rest h = elim (Bool-cases (starts "--- " l)) [
    | inl e ↦ done (l ∷ ls) w v n m rest (rw (hunks, e) at h)
    | inr e ↦ elim (Result-cases (header_and_hunk decimal l ls w)) [
      | inr (x, f) ↦ absurd (cc (rw (hunks, e, f) at h))
      | inl (x, f) ↦
          Rewrites-cons l ls x.1 rest w x.0 v n m (header_and_hunk-Hunk l ls w x.0 x.1 f)
            (hunks-Rewrites fuel x.1 x.0 v (suc n) m rest (rw (hunks, e, f) at h))
    ]
  ]
