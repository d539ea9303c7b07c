-- ===== src/Collector/Template.antt =====
-- flowd/flowd.c and flowd/netflow.h: template flowsets of NetFlow v.9.
--
-- A packet is the list of its bytes, and a read is one at an offset into the packet. `over_read` is
-- a read from behind the packet's end, which the code does not test for where a header of four
-- bytes starts less than four bytes before the end. `calloc` succeeds, for no elements too: where the
-- system gives NULL for those, flowd exits.
use network_monitoring_emula.Common.{
  ℕ, zero, suc, ◌+◌, ◌%◌, ◌^◌, Bool, true, false, not, ◌||◌, Option, none, some, List, [], ◌∷◌,
  length, ltb, leb, ◌==◌, if◌then◌else◌,
}
use network_monitoring_emula.Store.Bytes.{number}
use network_monitoring_emula.Peer.{
  Nf9Record, Template, Nf9State, Limits, find_template, new_template, write_template,
}

-- The record types that flowd knows.
pub data Nf9Field : Type 0 where
  in_bytes in_packets in_protocol src_tos tcp_flags l4_src_port ipv4_src_addr src_mask : Nf9Field
  input_snmp l4_dst_port ipv4_dst_addr dst_mask output_snmp ipv4_next_hop src_as dst_as : Nf9Field
  last_switched first_switched ipv6_src_addr ipv6_dst_addr ipv6_src_mask ipv6_dst_mask : Nf9Field
  engine_type engine_id ipv6_next_hop : Nf9Field

-- The NF9_ numbers, in the order of the header.
abbrev pub field_numbers : List (ℕ × Nf9Field)
field_numbers =
    (1, in_bytes)
    ∷ (2, in_packets)
    ∷ (4, in_protocol)
    ∷ (5, src_tos)
    ∷ (6, tcp_flags)
    ∷ (7, l4_src_port)
    ∷ (8, ipv4_src_addr)
    ∷ (9, src_mask)
    ∷ (10, input_snmp)
    ∷ (11, l4_dst_port)
    ∷ (12, ipv4_dst_addr)
    ∷ (13, dst_mask)
    ∷ (14, output_snmp)
    ∷ (15, ipv4_next_hop)
    ∷ (16, src_as)
    ∷ (17, dst_as)
    ∷ (21, last_switched)
    ∷ (22, first_switched)
    ∷ (27, ipv6_src_addr)
    ∷ (28, ipv6_dst_addr)
    ∷ (29, ipv6_src_mask)
    ∷ (30, ipv6_dst_mask)
    ∷ (38, engine_type)
    ∷ (39, engine_id)
    ∷ (62, ipv6_next_hop)
    ∷ []

named : ℕ → List (ℕ × Nf9Field) → Option Nf9Field
named type [] = none
named type ((n, field) ∷ rest) = if type == n then some field else named type rest

-- `switch (rec->type)`
unfoldable pub nf9_field : ℕ → Option Nf9Field
unfolding named
nf9_field type = named type field_numbers

-- The size of the member of `struct store_flow_complete` that the record goes to.
abbrev pub member_size : Nf9Field → ℕ
member_size in_bytes = 8
member_size in_packets = 8
member_size in_protocol = 1
member_size src_tos = 1
member_size tcp_flags = 1
member_size l4_src_port = 2
member_size ipv4_src_addr = 4
member_size src_mask = 1
member_size input_snmp = 4
member_size l4_dst_port = 2
member_size ipv4_dst_addr = 4
member_size dst_mask = 1
member_size output_snmp = 4
member_size ipv4_next_hop = 4
member_size src_as = 4
member_size dst_as = 4
member_size last_switched = 4
member_size first_switched = 4
member_size ipv6_src_addr = 16
member_size ipv6_dst_addr = 16
member_size ipv6_src_mask = 1
member_size ipv6_dst_mask = 1
member_size engine_type = 2
member_size engine_id = 2
member_size ipv6_next_hop = 16

unfoldable pub within_member : Option Nf9Field → ℕ → Bool
within_member none len = true
within_member (some field) len = leb len (member_size field)

unfoldable pub nf9_check_rec_len : ℕ → ℕ → Bool
unfolding within_member
nf9_check_rec_len type len =
    if (len == 0) || ltb 0x4000 len then false else within_member (nf9_field type) len

-- `ntohs` of the two bytes at an offset into the packet.
unfoldable pub read16 : List ℕ → ℕ → Option ℕ
read16 packet i = if leb (i + 2) (length packet) then some (number i 2 packet) else none

-- The records of one template: the end of the loop that reads them, with the offset behind them and
-- their total length.
pub data ReadRecords : Type 0 where
  records : List Nf9Record → ℕ → ℕ → ReadRecords
  invalid : ReadRecords
  over_read : ReadRecords

unfoldable pub cons_record : Nf9Record → ReadRecords → ReadRecords
cons_record r (records rs offset total) = records (r ∷ rs) offset total
cons_record r invalid = invalid
cons_record r over_read = over_read

-- One round of the loop after its reads; `next` is what the rounds after it give.
unfoldable pub check_record : ℕ → Nf9Record → ℕ → ReadRecords → ReadRecords
unfolding cons_record
check_record max_template_len r total next =
    if ltb max_template_len total
    then invalid
    else if not (nf9_check_rec_len r.type r.len)
    then invalid
    else cons_record r next

-- `for (i = 0; i < count; i++)`, where the flowset ends at `end`.
unfoldable pub read_records : List ℕ → ℕ → ℕ → ℕ → ℕ → ℕ → ReadRecords
unfolding check_record
read_records packet end max_template_len zero offset total = records [] offset total
read_records packet end max_template_len (suc count) offset total =
    let next = λ (t : ℕ). read_records packet end max_template_len count (offset + 4) t in
    if leb end offset then invalid else elim (read16 packet offset) [
      | none ↦ over_read
      | some type ↦ elim (read16 packet (offset + 2)) [
        | none ↦ over_read
        | some len ↦
            let t = (total + len) % 2 ^ 32 in
            check_record max_template_len (record { type = type; len = len }) t (next t)
      ]
    ]

-- The end of the handler. `rejected` is the return value -1, after `peer->ninvalid++`.
pub data TemplateEnd : Type 0 where
  accepted : Nf9State → TemplateEnd
  rejected : Nf9State → TemplateEnd
  out_of_packet : TemplateEnd
  null_pointer : TemplateEnd
  confused : TemplateEnd
  unfinished : TemplateEnd

abbrev pub fill : List Nf9Record → ℕ → Template → Template
fill rs total t = record t { records = some rs; num_records = length rs; total_len = total }

-- The template that the lookup finds, or a new one, is given the records.
unfoldable pub store_template : Nf9State → Limits → ℕ → ℕ → List Nf9Record → ℕ → Option Nf9State
store_template peer limits source_id template_id rs total =
    elim (find_template peer source_id template_id) [
      | some _ ↦ some (write_template peer source_id template_id (fill rs total))
      | none ↦ elim (new_template peer limits source_id template_id) [
        | none ↦ none
        | some made ↦ some (write_template made source_id template_id (fill rs total))
      ]
    ]

-- What one round of the loop over the templates gives: how it goes on, or how the handler ends.
pub data Round : Type 0 where
  goes_on : Nf9State → ℕ → Round
  ends : TemplateEnd → Round

unfoldable pub store_records : Nf9State → Limits → ℕ → ℕ → ReadRecords → Round
unfolding store_template
store_records peer limits source_id template_id (records rs offset total) =
    elim (store_template peer limits source_id template_id rs total) [
      | none ↦ ends null_pointer
      | some peer' ↦ goes_on peer' offset
    ]
store_records peer limits source_id template_id invalid = ends (rejected peer)
store_records peer limits source_id template_id over_read = ends out_of_packet

unfoldable pub template_round : List ℕ → ℕ → Limits → ℕ → Nf9State → ℕ → Round
template_round packet end limits source_id peer offset = elim (read16 packet offset) [
  | none ↦ ends out_of_packet
  | some template_id ↦ elim (read16 packet (offset + 2)) [
    | none ↦ ends out_of_packet
    | some count ↦
        store_records peer limits source_id template_id
          (read_records packet end limits.max_template_len count (offset + 4) 0)
  ]
]

unfoldable pub after_round : (Nf9State → ℕ → TemplateEnd) → Round → TemplateEnd
after_round loop (goes_on peer offset) = loop peer offset
after_round loop (ends e) = e

-- `for (offset = sizeof(*template_header); offset < len;)`
unfoldable pub template_loop : List ℕ → ℕ → Limits → ℕ → ℕ → Nf9State → ℕ → TemplateEnd
unfolding after_round
template_loop packet end limits source_id zero peer offset = unfinished
template_loop packet end limits source_id (suc fuel) peer offset =
    let round =
      after_round (λ p o. template_loop packet end limits source_id fuel p o)
        (template_round packet end limits source_id peer offset) in
    if ltb offset end then round else accepted peer

-- The flowset starts at `start` and has `len` bytes. Every round moves on by four bytes or more, so
-- `len` rounds and the last test are enough.
unfoldable pub process_template : List ℕ → ℕ → ℕ → Nf9State → Limits → ℕ → TemplateEnd
process_template packet start len peer limits source_id =
    if ltb len 4 then rejected peer else elim (read16 packet start) [
      | none ↦ out_of_packet
      | some flowset_id ↦
          if not (flowset_id == 0)
          then confused
          else template_loop packet (start + len) limits source_id (suc len) peer (start + 4)
    ]
