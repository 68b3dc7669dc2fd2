-- ===== src/Forensic/Lnk/Bounds.antt =====
-- What `_id_list` of backend/app/forensic/lnk.py returns is bounded by its limit and by its input.
use dfir_investigation_workb.Prelude.{
  Bool-cases, List, Result-cases, Text, [], arith, inl, inr, length, length-append, ltb, ltb→le, ok,
  refl, slice, suc, zero, ℕ, ◌++◌, ◌+◌, ◌<◌, ◌∷◌, ◌≡◌, ◌≤◌,
}
use dfir_investigation_workb.Forensic.Bytes.{Bytes, uint16}
use dfir_investigation_workb.Forensic.Lnk.Blocks.{
  ShellItem, class_warnings, id_list, id_list_loop, max_idlist_items, shell_item,
}

abbrev pub total_size : List ShellItem → ℕ
total_size [] = 0
total_size (item ∷ items) = item.size + total_size items

-- The items are numbered from a number on.
abbrev pub Numbered : ℕ → List ShellItem → Type 0
Numbered n [] = Unit {0}
Numbered n (item ∷ items) = (item.index ≡ n) × Numbered (n + 1) items

total_size-snoc :
    (items : List ShellItem) (item : ShellItem)
    → total_size (items ++ item ∷ []) ≡ total_size items + item.size
total_size-snoc [] item = omega arith
total_size-snoc (x ∷ items) item = omega (arith, total_size-snoc items item)

Numbered-snoc :
    (n : ℕ) (items : List ShellItem) (item : ShellItem)
    → Numbered n items
    → item.index ≡ n + length items
    → Numbered n (items ++ item ∷ [])
Numbered-snoc n [] item h e = (omega arith, tt)
Numbered-snoc n (x ∷ items) item h e = (h.0, Numbered-snoc (n + 1) items item h.1 (omega arith))

-- no more than the limit, no more than the bytes hold, numbered in order
abbrev pub IsBounded : Bytes → List ShellItem → Type 0
IsBounded bytes items =
    (length items ≤ max_idlist_items) × (total_size items ≤ length bytes) × Numbered 0 items

shell_item-IsBounded :
    (bytes : Bytes) (items : List ShellItem) (size offset : ℕ) (item : Bytes)
    → IsBounded bytes items
    → length items < max_idlist_items
    → total_size items ≡ offset
    → offset + size ≤ length bytes
    → IsBounded bytes (items ++ shell_item (length items) size item ∷ [])
      × (total_size (items ++ shell_item (length items) size item ∷ []) ≡ offset + size)
unfolding shell_item
shell_item-IsBounded bytes items size offset item b few sum fits =
    let new = shell_item (length items) size item in
    (
      (
        omega (arith, length-append items (new ∷ [])),
        omega (arith, total_size-snoc items new),
        Numbered-snoc 0 items new b.2 (omega arith),
      ),
      omega (arith, total_size-snoc items new),
    )

-- One round keeps the bounds: the sizes add up to the offset.
id_list_loop-IsBounded :
    (bytes : Bytes) (fuel offset : ℕ) (items items' : List ShellItem)
    (warnings warnings' : List Text)
    → IsBounded bytes items
    → length items < max_idlist_items
    → total_size items ≡ offset
    → id_list_loop bytes fuel offset (items, warnings) ≡ ok (items', warnings')
    → IsBounded bytes items'
unfolding id_list_loop
id_list_loop-IsBounded bytes zero offset items items' warnings warnings' b few sum h = cc
id_list_loop-IsBounded bytes (suc fuel) offset items items' warnings warnings' b few sum h =
    elim (Result-cases (uint16 bytes offset)) [
      | inr (e, q) ↦ ground (arith, q)
      | inl (size, q) ↦
          let item = slice offset (offset + size) bytes in
          let new = shell_item (length items) size item in
          elim (Bool-cases (ltb (length bytes) (offset + size))) [
            | inl beyond ↦ ground (arith, q, beyond)
            | inr fits ↦
                let (b', sum') =
                  shell_item-IsBounded bytes items size offset item b few sum (ltb→le _ _ fits) in
                ground (
                  arith,
                  q,
                  length-append items (new ∷ []),
                  id_list_loop-IsBounded bytes fuel (offset + size) (items ++ new ∷ []) items'
                      (class_warnings new warnings) warnings' b',
                )
          ]
    ]

-- Whatever the bytes, an IDList that is read has at most 4096 items, which are numbered from 0 in
-- order, and whose sizes add up to no more than the bytes there are.
pub id_list-IsBounded :
    (bytes : Bytes) (warnings : List Text) {items : List ShellItem} {warnings' : List Text}
    → id_list bytes warnings ≡ ok (items, warnings')
    → IsBounded bytes items
unfolding id_list
id_list-IsBounded bytes warnings {items} {warnings'} h =
    id_list_loop-IsBounded bytes (suc (length bytes)) 0 [] items warnings warnings'
      (omega arith, omega arith, tt) (omega arith) refl h
