-- ===== src/Api/Logging.antt =====
-- api/src/logging.ts: the correlation id of a request.
use frontdesk_intake.Prelude.{
  ℕ, String, Bool, true, false, ◌&&◌, ◌||◌, not, Option, none, some, ◌≡◌, refl, subst, ◌≤◌,
  is_empty, trim, trim-trim, utf16_length, every_char, leb, ltb, nat_beq, if◌then◌else◌, Bool-cases,
  inl, inr, arith,
}

-- a header: absent, given once, or several times
pub data Header : Type 0 where
  missing : Header
  value : String → Header
  repeated : Header

abbrev pub max_request_id_length : ℕ
max_request_id_length = 128

-- /^[A-Za-z0-9_.:-]+$/, one character of it
unfoldable pub is_safe : ℕ → Bool
is_safe c =
    (leb 65 c && leb c 90)
    || (leb 97 c && leb c 122)
    || (leb 48 c && leb c 57)
    || nat_beq c 95
    || nat_beq c 46
    || nat_beq c 58
    || nat_beq c 45

abbrev pub is_usable : String → Bool
is_usable trimmed =
    not (is_empty trimmed || ltb max_request_id_length (utf16_length trimmed))
    && every_char is_safe trimmed

unfoldable pub sanitize_request_id : Header → Option String
sanitize_request_id missing = none
sanitize_request_id repeated = none
sanitize_request_id (value text) =
    let trimmed = trim text in if is_usable trimmed then some trimmed else none

-- `uuid` is what `randomUUID` would return.
unfoldable pub gen_req_id : Header → String → String
gen_req_id header uuid = elim (sanitize_request_id header) [ none ↦ uuid | some id ↦ id ]

-- An inbound id is taken only if, trimmed, it is not empty, has at most 128 code units and only safe
-- characters; and an id that was taken is taken again, unchanged, by the next hop.
pub sanitize_request_id-usable :
    (header : Header) (id : String)
    → sanitize_request_id header ≡ some id
    → (is_empty id ≡ false)
      × (utf16_length id ≤ max_request_id_length)
      × (every_char is_safe id ≡ true)
      × (sanitize_request_id (value id) ≡ some id)
unfolding sanitize_request_id
sanitize_request_id-usable missing id h = cc
sanitize_request_id-usable repeated id h = cc
sanitize_request_id-usable (value text) id h = elim (Bool-cases (is_usable (trim text))) [
  | inl good ↦
      let same : trim text ≡ id = ground (arith, rw good at h) in
      subst
        (λ x.
          (is_empty x ≡ false)
          × (utf16_length x ≤ max_request_id_length)
          × (every_char is_safe x ≡ true)
          × ((if is_usable (trim x) then some (trim x) else none) ≡ some x))
        same
        (
          ground (arith, good),
          ground (arith, good),
          ground (arith, good),
          rw (trim-trim text) (rw good refl),
        )
  | inr bad ↦ absurd (cc (rw bad at h))
]
