-- ===== src/Inline/Pages.antt =====
-- A leaf page in the value of an entry is read as it was written.
use cbtree.Base.{
  ℕ, ◌<◌, ◌≡◌, refl, ◌∙◌, true, some, List, [], ◌∷◌, ◌++◌, append_assoc, length, has_flag, u16, u32,
  u64, All,
}
use cbtree.Page.{Page, Body, raw, leaf, LeafPageElement, leaf_page_flag}
use cbtree.Codec.{◌>>=◌}
use cbtree.Inline.{
  le_bytes, element_bytes, read_elements, body_bytes, page_bytes, read_page, read_leaf_body,
}
use cbtree.Inline.Bytes.{read_le-append, u16-Fits, u32-Fits, u64-Fits}

-- The fields of an element fit their words.
abbrev pub IsElement : LeafPageElement → Type 0
IsElement e = (e.flag < u32) × (e.pos < u32) × (e.ksize < u32) × (e.vsize < u32)

pub read_elements-append :
    (es : List LeafPageElement) (bs : List ℕ)
    → All IsElement es
    → read_elements (length es) (element_bytes es ++ bs) ≡ some (es, bs)
unfolding read_elements element_bytes
read_elements-append [] bs h = refl
read_elements-append (e ∷ es) bs ((a, b, c, d), h) =
    let d0 = element_bytes es ++ bs in
    let d1 = le_bytes 4 e.vsize ++ d0 in
    let d2 = le_bytes 4 e.ksize ++ d1 in
    let d3 = le_bytes 4 e.pos ++ d2 in
    let whole : element_bytes (e ∷ es) ++ bs ≡ le_bytes 4 e.flag ++ d3 = simp append_assoc refl in
    rw
      (
        whole,
        read_le-append 4 e.flag d3 (u32-Fits e.flag a),
        read_le-append 4 e.pos d2 (u32-Fits e.pos b),
        read_le-append 4 e.ksize d1 (u32-Fits e.ksize c),
        read_le-append 4 e.vsize d0 (u32-Fits e.vsize d),
        read_elements-append es bs h,
      )
      refl

-- A page whose header fits its words, with a leaf's elements, or with none.
pub record IsLeafPage (p : Page) (es : List LeafPageElement) (content : List ℕ) : Type 0 where
  pub id : p.id < u64
  pub flag : p.flag < u16
  pub leaf_flag : has_flag leaf_page_flag p.flag ≡ true
  pub count : p.count ≡ length es
  pub few : p.count < u16
  pub overflow : p.overflow < u32
  pub elements : All IsElement es

-- What stands behind the header.
abbrev pub elements_or_raw : List LeafPageElement → List ℕ → Body
elements_or_raw [] content = raw
elements_or_raw (e ∷ es) content = leaf (e ∷ es) content

module _ (p : Page) (es : List LeafPageElement) (content : List ℕ)
    (v : IsLeafPage p es content) where
  read_page-header :
      (bs : List ℕ)
      → read_page (
          le_bytes 8 p.id
          ++ (le_bytes 2 p.flag ++ (le_bytes 2 p.count ++ (le_bytes 4 p.overflow ++ bs))))
        ≡ (read_leaf_body true p.count bs >>= λ body. some (record p { body = body }))
  unfolding read_page
  read_page-header bs =
      let d1 = le_bytes 4 p.overflow ++ bs in
      let d2 = le_bytes 2 p.count ++ d1 in
      let d3 = le_bytes 2 p.flag ++ d2 in
      rw
        (
          read_le-append 8 p.id d3 (u64-Fits p.id v.id),
          read_le-append 2 p.flag d2 (u16-Fits p.flag v.flag),
          read_le-append 2 p.count d1 (u16-Fits p.count v.few),
          read_le-append 4 p.overflow bs (u32-Fits p.overflow v.overflow),
          v.leaf_flag,
        )
        refl

  -- The body that `write` leaves: the elements, or the cleared memory if there are none.
  pub read_page-page_bytes : p.body ≡ elements_or_raw es content → read_page (page_bytes p) ≡ some p
  unfolding page_bytes
  read_page-page_bytes b = read_page-header (body_bytes p.body) ∙ bodied es v.count v.elements b
    where
      bodied :
          (es : List LeafPageElement)
          → p.count ≡ length es
          → All IsElement es
          → p.body ≡ elements_or_raw es content
          → (read_leaf_body true p.count (body_bytes p.body) >>= λ body.
              some (record p { body = body }))
            ≡ some p
      bodied [] n h b = rw (n, b) refl
      bodied (e ∷ es) n h b = rw (n, b, read_elements-append (e ∷ es) content h) refl
