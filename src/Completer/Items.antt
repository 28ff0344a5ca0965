-- ===== src/Completer/Items.antt =====
-- What AddItem of Completer.cpp adds to the queue, as a list of items.
use os_x_generic_usb.Base.{
  ℕ, suc, ◌+◌, ◌≤◌, ◌≡◌, ◌∙◌, refl, sym, ap, List, [], ◌∷◌, ◌++◌, some, arith, length,
  length-append,
}
use os_x_generic_usb.Completer.{
  Item, Completer, Request, append_item, add_request, serve, retain, max_free_retention,
}

-- What the nodes hold.
unfoldable pub items : List (ℕ × Item) → List Item
items [] = []
items ((p, item) ∷ xs) = item ∷ items xs

unfoldable pub request_items : List Request → List Item
request_items [] = []
request_items (r ∷ rs) = r.item ∷ request_items rs

-- The requests that find memory.
unfoldable pub HaveMemory : List Request → Type 0
HaveMemory [] = Unit {0}
HaveMemory (r ∷ rs) = ((p : ℕ) × (r.malloc ≡ some p)) × HaveMemory rs

unfoldable pub RoundsHaveMemory : List (List Request) → Type 0
RoundsHaveMemory [] = Unit {0}
RoundsHaveMemory (rs ∷ later) = HaveMemory rs × RoundsHaveMemory later

unfoldable pub total : List (List Request) → ℕ
total [] = 0
total (rs ∷ later) = length rs + total later

-- The free list's length is the free count, at most 16.
pub record IsValid (c : Completer) : Type 0 where
  pub counted : c.free_count ≡ length c.free
  pub bounded : c.free_count ≤ max_free_retention

pub length-items : (xs : List (ℕ × Item)) → length (items xs) ≡ length xs
unfolding items
length-items [] = refl
length-items ((p, item) ∷ xs) = ap suc (length-items xs)

pub length-request_items : (rs : List Request) → length (request_items rs) ≡ length rs
unfolding request_items
length-request_items [] = refl
length-request_items (r ∷ rs) = ap suc (length-request_items rs)

items-append :
    (xs : List (ℕ × Item)) (p : ℕ) (item : Item)
    → items (xs ++ (p, item) ∷ []) ≡ items xs ++ item ∷ []
unfolding items
items-append [] p item = refl
items-append ((q, i) ∷ xs) p item = ap (λ (l : List Item). i ∷ l) (items-append xs p item)

pub request_items-append :
    (rs ts : List Request) → request_items (rs ++ ts) ≡ request_items rs ++ request_items ts
unfolding request_items
request_items-append [] ts = refl
request_items-append (r ∷ rs) ts = ap (λ (l : List Item). r.item ∷ l) (request_items-append rs ts)

pub append_assoc : (xs ys zs : List Item) → (xs ++ ys) ++ zs ≡ xs ++ (ys ++ zs)
append_assoc [] ys zs = refl
append_assoc (x ∷ xs) ys zs = ap (λ (l : List Item). x ∷ l) (append_assoc xs ys zs)

append_cons : (xs : List Item) (y : Item) (zs : List Item) → (xs ++ y ∷ []) ++ zs ≡ xs ++ y ∷ zs
append_cons [] y zs = refl
append_cons (x ∷ xs) y zs = ap (λ (l : List Item). x ∷ l) (append_cons xs y zs)

append_nil : (xs : List Item) → xs ++ [] ≡ xs
append_nil [] = refl
append_nil (x ∷ xs) = ap (λ (l : List Item). x ∷ l) (append_nil xs)

-- From `c` to `d` the items are appended, and the owner stays.
pub record Appended (c d : Completer) (more : List Item) (calls : List Item) : Type 0 where
  pub valid : IsValid d
  pub active_is : items d.active ≡ items c.active ++ more
  pub owner_kept : d.owner ≡ c.owner
  pub no_calls : calls ≡ []

add_by_free :
    (c : Completer) (r : Request) (p : ℕ)
    → IsValid c
    → r.malloc ≡ some p
    → (free : List ℕ) → c.free ≡ free
    → Appended c (add_request c r).completer (r.item ∷ []) (add_request c r).calls
unfolding add_request append_item
add_by_free c r p v got [] e =
    rw (e, add_request, got, append_item)
      (record {
        valid = record { counted = v.counted; bounded = v.bounded };
        active_is = items-append c.active p r.item;
        owner_kept = refl;
        no_calls = refl;
      })
add_by_free c r p v got (q ∷ rest) e =
    rw (e, add_request, append_item)
      (record {
        valid = record {
          counted = ground (arith, v.counted, v.bounded, ap (λ (l : List ℕ). length l) e);
          bounded = ground (arith, v.counted, v.bounded, ap (λ (l : List ℕ). length l) e);
        };
        active_is = items-append c.active q r.item;
        owner_kept = refl;
        no_calls = refl;
      })

add_request-Appended :
    (c : Completer) (r : Request) (p : ℕ)
    → IsValid c
    → r.malloc ≡ some p
    → Appended c (add_request c r).completer (r.item ∷ []) (add_request c r).calls
add_request-Appended c r p v got = add_by_free c r p v got c.free refl

pub serve-Appended :
    (c : Completer) (rs : List Request)
    → IsValid c
    → HaveMemory rs
    → Appended c (serve rs c).0 (request_items rs) (serve rs c).1
unfolding serve HaveMemory request_items
serve-Appended c [] v m = record {
  valid = v;
  active_is = sym (append_nil (items c.active));
  owner_kept = refl;
  no_calls = refl;
}
serve-Appended c (r ∷ rs) v m =
    let first = add_request-Appended c r m.0.0 v m.0.1 in
    let d = (add_request c r).completer in
    let later = serve-Appended d rs first.valid m.1 in
    record {
      valid = later.valid;
      active_is =
          later.active_is
          ∙ ap (λ (l : List Item). l ++ request_items rs) first.active_is
          ∙ append_cons (items c.active) r.item (request_items rs);
      owner_kept = later.owner_kept ∙ first.owner_kept;
      no_calls = rw (first.no_calls, later.no_calls) refl;
    }

pub retain-IsValid : (c : Completer) (p : ℕ) → IsValid c → IsValid (retain c p)
unfolding retain
retain-IsValid c p v = ground (arith, length-append c.free (p ∷ []))

pub retain_active :
    (c : Completer) (p : ℕ) → ((retain c p).active ≡ c.active) × ((retain c p).owner ≡ c.owner)
unfolding retain
retain_active c p = ground arith
