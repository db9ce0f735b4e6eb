-- ===== src/Tiered/Backing.antt =====
-- The host memory that the pages of a table list, and what the table's operations do to it.
use Prim.Native.String.{String}
use text.Mathlib.Text.{◌==◌ as str_eq}
use mathlib.Core.Option.{none-ne-some, some-injective}
use vugva.Common.{
  ℕ, ◌≤◌, ◌^◌, ◌≡◌, refl, sym, ap, ap₂, ◌∙◌, subst, inl, inr, none, some, Option, List, [], ◌∷◌,
  ◌++◌, append_assoc, Bool-cases,
}
use vugva.FreeList.{Block}
use vugva.Vmt.{DramChunk, Page, get, put, drop}
use vugva.Tiered.Backed.{blocks_of}

-- The size of each page and its chunks in DRAM.
unfoldable pub backing : List (String × Page) → List (ℕ × List DramChunk)
backing [] = []
backing ((_, p) ∷ m) = (p.size_bytes, p.dram_chunks) ∷ backing m

abbrev pub blocks : List (ℕ × List DramChunk) → List Block
blocks [] = []
blocks ((_, cs) ∷ l) = blocks_of cs ++ blocks l

-- No page is larger than an allocation can be.
abbrev pub AllSmall : List (ℕ × List DramChunk) → Type 0
AllSmall [] = Unit {0}
AllSmall ((size, _) ∷ l) = (size ≤ 2 ^ 63) × AllSmall l

abbrev pub old_blocks : Option Page → List Block
old_blocks none = []
old_blocks (some p) = blocks_of p.dram_chunks

-- The blocks of a table in which one page takes the place of another, or is new.
pub record Replaced (old new : List Block) (l l' : List (ℕ × List DramChunk)) : Type 0 where
  pub xs : List Block
  pub ys : List Block
  pub before : blocks l ≡ xs ++ (old ++ ys)
  pub after : blocks l' ≡ xs ++ (new ++ ys)

pub put-Replaced :
    (k : String) (q : Page) (m : List (String × Page))
    → Replaced (old_blocks (get k m)) (blocks_of q.dram_chunks) (backing m) (backing (put k q m))
unfolding backing get put
put-Replaced k q [] = record { xs = []; ys = []; before = refl; after = refl }
put-Replaced k q ((j, p) ∷ m) = elim (Bool-cases (str_eq j k)) [
  | inl e ↦ rw (e) (record { xs = []; ys = blocks (backing m); before = refl; after = refl })
  | inr e ↦
      let r = put-Replaced k q m in
      rw (e) (record {
        xs = blocks_of p.dram_chunks ++ r.xs;
        ys = r.ys;
        before =
            ap (λ t. blocks_of p.dram_chunks ++ t) r.before
            ∙ sym (append_assoc (blocks_of p.dram_chunks) r.xs _);
        after =
            ap (λ t. blocks_of p.dram_chunks ++ t) r.after
            ∙ sym (append_assoc (blocks_of p.dram_chunks) r.xs _);
      })
]

pub drop-Replaced :
    (k : String) (p : Page) (m : List (String × Page))
    → get k m ≡ some p
    → Replaced (blocks_of p.dram_chunks) [] (backing m) (backing (drop k m))
unfolding backing get drop
drop-Replaced k p [] h = absurd (none-ne-some p h)
drop-Replaced k p ((j, q) ∷ m) h = elim (Bool-cases (str_eq j k)) [
  | inl e ↦
      let same : q ≡ p = some-injective q p (rw e at h) in
      rw (e) (record {
        xs = [];
        ys = blocks (backing m);
        before = ap (λ (x : Page). blocks_of x.dram_chunks ++ blocks (backing m)) same;
        after = refl;
      })
  | inr e ↦
      let r = drop-Replaced k p m (rw e at h) in
      rw (e) (record {
        xs = blocks_of q.dram_chunks ++ r.xs;
        ys = r.ys;
        before =
            ap (λ t. blocks_of q.dram_chunks ++ t) r.before
            ∙ sym (append_assoc (blocks_of q.dram_chunks) r.xs _);
        after =
            ap (λ t. blocks_of q.dram_chunks ++ t) r.after
            ∙ sym (append_assoc (blocks_of q.dram_chunks) r.xs _);
      })
]

-- A page that keeps its size and its chunks changes nothing.
pub put-backing :
    (k : String) (p q : Page) (m : List (String × Page))
    → get k m ≡ some p
    → q.size_bytes ≡ p.size_bytes
    → q.dram_chunks ≡ p.dram_chunks
    → backing (put k q m) ≡ backing m
unfolding backing get put
put-backing k p q [] h s c = absurd (none-ne-some p h)
put-backing k p q ((j, r) ∷ m) h s c = elim (Bool-cases (str_eq j k)) [
  | inl e ↦
      let same : r ≡ p = some-injective r p (rw e at h) in
      rw e (
        ap₂ (λ (size : ℕ) (cs : List DramChunk). (size, cs) ∷ backing m)
          (s ∙ sym (ap (λ (x : Page). x.size_bytes) same))
          (c ∙ sym (ap (λ (x : Page). x.dram_chunks) same)))
  | inr e ↦ rw e (ap (λ t. (r.size_bytes, r.dram_chunks) ∷ t) (put-backing k p q m (rw e at h) s c))
]

pub put-AllSmall :
    (k : String) (q : Page) (m : List (String × Page))
    → q.size_bytes ≤ 2 ^ 63
    → AllSmall (backing m)
    → AllSmall (backing (put k q m))
unfolding backing put
put-AllSmall k q [] h a = (h, tt)
put-AllSmall k q ((j, p) ∷ m) h (b, a) = elim (Bool-cases (str_eq j k)) [
  | inl e ↦ rw e (h, a)
  | inr e ↦ rw e (b, put-AllSmall k q m h a)
]

pub drop-AllSmall :
    (k : String) (m : List (String × Page)) → AllSmall (backing m) → AllSmall (backing (drop k m))
unfolding backing drop
drop-AllSmall k [] a = tt
drop-AllSmall k ((j, p) ∷ m) (b, a) = elim (Bool-cases (str_eq j k)) [
  | inl e ↦ rw e a
  | inr e ↦ rw e (b, drop-AllSmall k m a)
]

pub get-AllSmall :
    (k : String) (p : Page) (m : List (String × Page))
    → get k m ≡ some p
    → AllSmall (backing m)
    → p.size_bytes ≤ 2 ^ 63
unfolding backing get
get-AllSmall k p [] h a = absurd (none-ne-some p h)
get-AllSmall k p ((j, q) ∷ m) h (b, a) = elim (Bool-cases (str_eq j k)) [
  | inl e ↦ subst (λ (x : Page). x.size_bytes ≤ 2 ^ 63) (some-injective q p (rw e at h)) b
  | inr e ↦ get-AllSmall k p m (rw e at h) a
]
