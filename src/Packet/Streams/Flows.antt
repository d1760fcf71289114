-- ===== src/Packet/Streams/Flows.antt =====
-- What a flow says of the packets between its two sides, and one more packet.

use zcc_analysis.Common.{
  ℕ, zero, suc, ◌+◌, ◌≡◌, ◌≢◌, refl, sym, subst, ◌∙◌, arith, ap, Bool, true, false, ◌||◌, List, [],
  ◌∷◌, ◌++◌, map, take, length, length-append, keep, keep-append, append-nil, any, total, ltb,
  if◌then◌else◌, Str,
}
use zcc_analysis.Packet.Bytes.{Bytes}
use zcc_analysis.Packet.Full.{Parsed}
use zcc_analysis.Packet.Streams.Keys.{
  Item, is_set, between, references, or_hit-references, canonical_idem,
}
use zcc_analysis.Packet.Streams.{
  Flow, canonical, src_side, dst_side, on_flow, new_flow, packet_of, hit,
}

module _ (lower : Str → Str) (is_digits : Str → Bool) (format_ipv6 : Bytes → Str) where
  -- What a flow says of its packets `mine`: their number and lengths, the first and the last time,
  -- the first of them in full, and whether one of them has the query.
  pub record Sums (cap : ℕ) (q : Str) (mine : List Item) (f : Flow) : Type 0 where
    pub count : f.packet_count ≡ length mine
    pub bytes : f.bytes_total ≡ total (λ (x : Item). x.1.total_len) mine
    pub packets :
        f.packets
        ≡ map (λ (x : Item). packet_of lower is_digits format_ipv6 x.0 x.1 f.side_a) (take cap mine)
    pub matched : is_set f.matched_by ≡ any (references lower is_digits format_ipv6 q) mine
    pub first : (x : Item) (xs : List Item) → mine ≡ x ∷ xs → f.first_ts ≡ x.0
    pub last : (x : Item) (xs : List Item) → mine ≡ xs ++ x ∷ [] → f.last_ts ≡ x.0

  -- A flow of the packets `done`: its sides are in order, and it holds those between them.
  pub record IsFlow (cap : ℕ) (q : Str) (done : List Item) (f : Flow) : Type 0 where
    pub ordered : canonical f.side_a f.side_b ≡ (f.side_a, f.side_b)
    pub sums : Sums cap q (keep (between lower is_digits format_ipv6 f) done) f
    pub some_packet : keep (between lower is_digits format_ipv6 f) done ≢ []

  any-append :
      (p : Item → Bool) (xs : List Item) (x : Item) → any p (xs ++ x ∷ []) ≡ any p xs || p x
  any-append p [] x = ground arith
  any-append p (y ∷ xs) x = ground (arith, any-append p xs x)

  total-append :
      (w : Item → ℕ) (xs : List Item) (x : Item) → total w (xs ++ x ∷ []) ≡ total w xs + w x
  total-append w [] x = omega arith
  total-append w (y ∷ xs) x = omega (arith, total-append w xs x)

  kept :
      {B : Type 0} (g : Item → B) (cap : ℕ) (xs : List Item) (x : Item)
      → map g (take cap (xs ++ x ∷ [])) ≡ (
          if ltb (length (map g (take cap xs))) cap
          then map g (take cap xs) ++ g x ∷ []
          else map g (take cap xs))
  kept g zero xs x = ground arith
  kept g (suc zero) [] x = refl
  kept g (suc (suc n)) [] x = let room : ltb 0 (suc (suc n)) ≡ true = ground arith in rw room refl
  kept g (suc n) (y ∷ xs) x = ground (arith, kept g n xs x)

  snoc-last : (xs ys : List Item) (x y : Item) → xs ++ x ∷ [] ≡ ys ++ y ∷ [] → x ≡ y
  snoc-last [] [] x y h = cc
  snoc-last [] (z ∷ []) x y h = cc
  snoc-last [] (z ∷ w ∷ ys) x y h = cc
  snoc-last (z ∷ []) [] x y h = cc
  snoc-last (z ∷ w ∷ xs) [] x y h = cc
  snoc-last (z ∷ xs) (w ∷ ys) x y h = snoc-last xs ys x y (cc)

  -- One more packet on its flow.
  on_flow-Sums :
      (cap : ℕ) (q : Str) (mine : List Item) (f : Flow) (ts : ℕ) (p : Parsed)
      → Sums cap q mine f
      → (mine ≡ [] → f.first_ts ≡ ts)
      → Sums cap q (mine ++ (ts, p) ∷ []) (on_flow lower is_digits format_ipv6 cap q ts p f)
  unfolding on_flow
  on_flow-Sums cap q mine f ts p s fresh = record {
    count = omega (arith, s.count, length-append mine ((ts, p) ∷ []));
    bytes = omega (arith, s.bytes, total-append (λ (x : Item). x.1.total_len) mine (ts, p));
    packets = rw s.packets (
        sym (
          kept (λ (x : Item). packet_of lower is_digits format_ipv6 x.0 x.1 f.side_a) cap mine
            (ts, p)));
    matched =
        or_hit-references lower is_digits format_ipv6 f.matched_by q ts p
        ∙ ap (λ b. b || references lower is_digits format_ipv6 q (ts, p)) s.matched
        ∙ sym (any-append (references lower is_digits format_ipv6 q) mine (ts, p));
    first = by_first mine refl;
    last = λ x xs e. ap (λ (z : Item). z.0) (snoc-last mine xs (ts, p) x e);
  }
    where
      by_first :
          (m : List Item)
          → mine ≡ m
          → (x : Item) (xs : List Item) → mine ++ (ts, p) ∷ [] ≡ x ∷ xs
          → f.first_ts ≡ x.0
      by_first [] e x xs h =
          let g : (ts, p) ∷ [] ≡ x ∷ xs = ap (λ (l : List Item). l ++ (ts, p) ∷ []) (sym e) ∙ h in
          fresh e ∙ ap (λ (z : Item). z.0) (snoc-last [] [] (ts, p) x (cc))
      by_first (y ∷ m) e x xs h =
          let g : y ∷ (m ++ (ts, p) ∷ []) ≡ x ∷ xs =
            ap (λ (l : List Item). l ++ (ts, p) ∷ []) (sym e) ∙ h in
          let same : y ≡ x = cc in s.first x m (e ∙ ap (λ z. z ∷ m) same)

  snoc-ne : (xs : List Item) (x : Item) → xs ++ x ∷ [] ≢ []
  snoc-ne [] x h = cc
  snoc-ne (y ∷ xs) x h = cc

  keep-snoc :
      (f : Flow) (done : List Item) (x : Item)
      → keep (between lower is_digits format_ipv6 f) (done ++ x ∷ [])
        ≡ keep (between lower is_digits format_ipv6 f) done
          ++ (if between lower is_digits format_ipv6 f x then x ∷ [] else [])
  keep-snoc f done x = keep-append (between lower is_digits format_ipv6 f) done (x ∷ [])

  pub on_flow-IsFlow :
      (cap : ℕ) (q : Str) (done : List Item) (ts : ℕ) (p : Parsed) (f : Flow)
      → between lower is_digits format_ipv6 f (ts, p) ≡ true
      → IsFlow cap q done f
      → IsFlow cap q (done ++ (ts, p) ∷ []) (on_flow lower is_digits format_ipv6 cap q ts p f)
  unfolding on_flow
  on_flow-IsFlow cap q done ts p f hit s =
      let mine = keep (between lower is_digits format_ipv6 f) done in
      let now : keep (between lower is_digits format_ipv6 f) (done ++ (ts, p) ∷ [])
          ≡ mine ++ (ts, p) ∷ [] =
        keep-snoc f done (ts, p) ∙ ap (λ b. mine ++ (if b then (ts, p) ∷ [] else [])) hit in
      record {
        ordered = s.ordered;
        sums =
            subst (λ m. Sums cap q m (on_flow lower is_digits format_ipv6 cap q ts p f)) (sym now)
              (on_flow-Sums cap q mine f ts p s.sums (λ e. absurd (s.some_packet e)));
        some_packet = λ e. snoc-ne mine (ts, p) (sym now ∙ e);
      }

  pub other-IsFlow :
      (cap : ℕ) (q : Str) (done : List Item) (x : Item) (f : Flow)
      → between lower is_digits format_ipv6 f x ≡ false
      → IsFlow cap q done f
      → IsFlow cap q (done ++ x ∷ []) f
  other-IsFlow cap q done x f miss s =
      let mine = keep (between lower is_digits format_ipv6 f) done in
      let now : keep (between lower is_digits format_ipv6 f) (done ++ x ∷ []) ≡ mine =
        keep-snoc f done x ∙ ap (λ b. mine ++ (if b then x ∷ [] else [])) miss ∙ append-nil mine in
      record {
        ordered = s.ordered;
        sums = subst (λ m. Sums cap q m f) (sym now) s.sums;
        some_packet = λ e. s.some_packet (sym now ∙ e);
      }

  new_flow-Sums :
      (cap : ℕ) (q : Str) (ts : ℕ) (p : Parsed)
      → Sums cap q [] (new_flow lower is_digits format_ipv6 ts p)
  unfolding new_flow
  new_flow-Sums cap q ts p = record {
    count = refl;
    bytes = refl;
    packets = rw (take_nil cap) refl;
    matched = refl;
    first = λ x xs e. cc;
    last = λ x xs e. absurd (snoc-ne xs x (sym e));
  }
    where
      take_nil : (n : ℕ) → take {A = Item} n [] ≡ []
      take_nil zero = refl
      take_nil (suc n) = refl

  pub new_flow-IsFlow :
      (cap : ℕ) (q : Str) (done : List Item) (ts : ℕ) (p : Parsed)
      → keep (between lower is_digits format_ipv6 (new_flow lower is_digits format_ipv6 ts p)) done
        ≡ []
      → between lower is_digits format_ipv6 (new_flow lower is_digits format_ipv6 ts p) (ts, p)
        ≡ true
      → IsFlow cap q (done ++ (ts, p) ∷ []) (
          on_flow lower is_digits format_ipv6 cap q ts p
            (new_flow lower is_digits format_ipv6 ts p))
  unfolding on_flow
  new_flow-IsFlow cap q done ts p fresh hit =
      let f = new_flow lower is_digits format_ipv6 ts p in
      let now : keep (between lower is_digits format_ipv6 f) (done ++ (ts, p) ∷ []) ≡ (ts, p) ∷ [] =
        keep-snoc f done (ts, p) ∙ (λ i. fresh i ++ (if hit i then (ts, p) ∷ [] else [])) in
      record {
        ordered =
            unfold new_flow in
            canonical_idem lower is_digits format_ipv6 (src_side lower is_digits format_ipv6 p)
              (dst_side lower is_digits format_ipv6 p);
        sums =
            subst (λ m. Sums cap q m (on_flow lower is_digits format_ipv6 cap q ts p f)) (sym now)
              (on_flow-Sums cap q [] f ts p (new_flow-Sums cap q ts p)
                (λ e. unfold new_flow in refl));
        some_packet = λ e. snoc-ne [] (ts, p) (sym now ∙ e);
      }
