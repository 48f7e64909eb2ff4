-- ===== src/Netd/Requests.antt =====
-- What the kernel finds in the requests of internal/netd/netd.go.
use a_from_scratch_linux_use.Base.{
  append-nil, sym, ◌∙◌, arith, [], ap, ◌∷◌, ◌%◌, length-append, some, ◌++◌, ◌^◌, ◌<◌, ◌+◌, length,
  ◌≡◌, ℕ, List, Bytes, refl,
}
use a_from_scratch_linux_use.Netd.Message.{
  sized_message, put_uint32_le, encode_rt_attr, gateway_message, put_uint16, set_flags,
  address_message, Netlink,
}
use a_from_scratch_linux_use.Netd.Attributes.{
  add_attribute, read_attributes-encode_rt_attr, encode_rt_attr_lem, padding, Describable,
  Attribute, read_attributes,
}

-- The sizes and ranges of linux/netlink.h and linux/rtnetlink.h.
abbrev pub Documented : Netlink → Type 0
Documented u =
    (u.sizeof_rt_attr ≡ 4)
    × ((l t f s : ℕ) → length (u.header_bytes l t f s) ≡ u.sizeof_nl_msghdr)
    × ((p i : ℕ) → length (u.address_bytes p i) ≡ u.sizeof_if_addrmsg)
    × (length u.default_route_bytes ≡ u.sizeof_rt_msg)
    × (u.sizeof_nl_msghdr + (u.sizeof_if_addrmsg + u.sizeof_rt_msg) < 2 ^ 16)
    × (u.ifa_local < 2 ^ 16)
    × (u.ifa_address < 2 ^ 16)
    × (u.rta_gateway < 2 ^ 16)
    × (u.rta_oif < 2 ^ 16)

-- A request with this body, whose header counts all its bytes, and these attributes behind it.
abbrev pub IsRequest : Netlink → Bytes → ℕ → ℕ → Bytes → List Attribute → Type 0
IsRequest u message kind seq body found =
    (attrs : Bytes) × (message
      ≡ u.header_bytes (length message) kind (set_flags u) seq ++ (body ++ attrs))
    × (read_attributes 3 attrs ≡ some found)

module _ (u : Netlink) (four : u.sizeof_rt_attr ≡ 4) where
  -- Two attributes, one behind the other.
  read_both :
      (k1 k2 : ℕ) (v1 v2 : Bytes)
      → Describable (k1, v1)
      → Describable (k2, v2)
      → read_attributes 3 (encode_rt_attr u k1 v1 ++ encode_rt_attr u k2 v2)
        ≡ some ((k1, v1) ∷ (k2, v2) ∷ [])
  unfolding read_attributes
  read_both k1 k2 v1 v2 h1 h2 =
      read_attributes-encode_rt_attr u four 2 k1 v1 (encode_rt_attr u k2 v2) h1
      ∙ ap (add_attribute (k1, v1)) (
          ap (read_attributes 2) (sym (append-nil (encode_rt_attr u k2 v2)))
          ∙ read_attributes-encode_rt_attr u four 1 k2 v2 [] h2)

  -- An attribute of four bytes has eight.
  length-encode_rt_attr :
      (kind : ℕ) (value : Bytes) → length value ≡ 4 → length (encode_rt_attr u kind value) ≡ 8
  unfolding put_uint16
  length-encode_rt_attr kind value h =
      let padding_length = length-append value (padding (length value)) in
      rw (encode_rt_attr_lem u four kind value, padding_length, h) refl

-- The count in the header.
length-sized_message :
    (u : Netlink) (size kind flags seq : ℕ) (body attrs : Bytes)
    → ((l t f s : ℕ) → length (u.header_bytes l t f s) ≡ u.sizeof_nl_msghdr)
    → length body ≡ size
    → u.sizeof_nl_msghdr + (size + length attrs) < 2 ^ 32
    → sized_message u size kind flags seq body attrs
      ≡ u.header_bytes (length (sized_message u size kind flags seq body attrs)) kind flags seq
        ++ (body ++ attrs)
length-sized_message u size kind flags seq body attrs h b n =
    let whole =
      length-append
        (u.header_bytes ((u.sizeof_nl_msghdr + (size + length attrs)) % 2 ^ 32) kind flags seq)
        (body ++ attrs) in
    let header = h ((u.sizeof_nl_msghdr + (size + length attrs)) % 2 ^ 32) kind flags seq in
    ap (λ l. u.header_bytes l kind flags seq ++ (body ++ attrs))
      (omega (arith, whole, header, length-append body attrs, b, n))

-- A request with two attributes of four bytes.
sized-IsRequest :
    (u : Netlink)
    → u.sizeof_rt_attr ≡ 4
    → ((l t f s : ℕ) → length (u.header_bytes l t f s) ≡ u.sizeof_nl_msghdr)
    → (k1 k2 : ℕ) (v1 v2 : Bytes) (size kind seq : ℕ) (body : Bytes) → length v1 ≡ 4
    → length v2 ≡ 4
    → k1 < 2 ^ 16
    → k2 < 2 ^ 16
    → length body ≡ size
    → u.sizeof_nl_msghdr + size < 2 ^ 16
    → IsRequest u
        (sized_message u size kind
          (set_flags u)
          seq
          body
          (encode_rt_attr u k1 v1 ++ encode_rt_attr u k2 v2))
        kind
        seq
        body
        ((k1, v1) ∷ (k2, v2) ∷ [])
sized-IsRequest u four header k1 k2 v1 v2 size kind seq body h1 h2 d1 d2 b n =
    let first = encode_rt_attr u k1 v1 in
    let second = encode_rt_attr u k2 v2 in
    let sixteen = length-append first second in
    let eight = length-encode_rt_attr u four k1 v1 h1 in
    let eight' = length-encode_rt_attr u four k2 v2 h2 in
    (
      first ++ second,
      length-sized_message u size kind (set_flags u) seq body (first ++ second) header b
          (omega (arith, sixteen, eight, eight', n)),
      read_both u four k1 k2 v1 v2 (d1, omega (arith, h1)) (d2, omega (arith, h2)),
    )

-- Where the sizes are the documented ones: the requests for an address and for a default gateway,
-- of any four bytes, count their own bytes in the header, and their attributes read back as the
-- address twice, and as the gateway and the index of the interface.
pub messages-IsRequest :
    (u : Netlink)
    → Documented u
    → (index cidr : ℕ) (ip gateway : Bytes) → length ip ≡ 4
    → length gateway ≡ 4
    → IsRequest u
        (address_message u index ip cidr)
        u.rtm_newaddr
        2
        (u.address_bytes cidr (index % 2 ^ 32))
        ((u.ifa_local, ip) ∷ (u.ifa_address, ip) ∷ [])
      × IsRequest u
          (gateway_message u index gateway)
          u.rtm_newroute
          3
          u.default_route_bytes
          ((u.rta_gateway, gateway) ∷ (u.rta_oif, put_uint32_le (index % 2 ^ 32)) ∷ [])
unfolding address_message gateway_message put_uint32_le
messages-IsRequest u (four, header, address, route, small, d1, d2, d3, d4) index cidr ip gateway h
      g =
    let oif = put_uint32_le (index % 2 ^ 32) in
    (
      sized-IsRequest u four header u.ifa_local u.ifa_address ip ip u.sizeof_if_addrmsg
          u.rtm_newaddr 2 (u.address_bytes cidr (index % 2 ^ 32)) h h d1 d2
          (address cidr (index % 2 ^ 32)) (omega (arith, small)),
      sized-IsRequest u four header u.rta_gateway u.rta_oif gateway oif u.sizeof_rt_msg
          u.rtm_newroute 3 u.default_route_bytes g refl d3 d4 route (omega (arith, small)),
    )
