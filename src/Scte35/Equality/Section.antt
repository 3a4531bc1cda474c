-- ===== src/Scte35/Equality/Section.antt =====
-- The operators == of src/scte35/scte35.h on splice inserts, commands, descriptors and sections.
use metamix.Base.{Bool, true, false, ◌&&◌, ◌≡◌, ◌↔◌, refl, arith}
use metamix.Base.Equality.{
  Comparable, equals, equals_iff, ◌&&↔◌, number_eq, bool_eq, option_eq, list_eq,
}
use metamix.Scte35.Types.{
  InsertComponent, InsertCancelOff, SpliceInsert, Command, splice_null, splice_schedule,
  splice_insert, time_signal, bandwidth_reservation, private_command, Descriptor, avail, dtmf,
  segmentation, time_descriptor, SpliceInfoSection,
}
use metamix.Scte35.Equality.{time_eq, duration_eq, event_eq}

-- SpliceInsert::CancelOff::Component
unfoldable pub equal_insert_component : InsertComponent → InsertComponent → Bool
equal_insert_component a b =
    equals a.component_tag b.component_tag && equals a.splice_time b.splice_time

pub equal_insert_component_iff :
    (a b : InsertComponent) → (equal_insert_component a b ≡ true) ↔ (a ≡ b)
unfolding equal_insert_component
equal_insert_component_iff a b =
    ground
      (arith, equals_iff a.component_tag b.component_tag, equals_iff a.splice_time b.splice_time)

instance abbrev pub insert_component_eq : Comparable InsertComponent
insert_component_eq = record { test = equal_insert_component; decides = equal_insert_component_iff }

-- SpliceInsert::CancelOff
unfoldable pub equal_insert_cancel_off : InsertCancelOff → InsertCancelOff → Bool
equal_insert_cancel_off a b =
    equals a.out_of_network b.out_of_network
    && equals a.program_splice b.program_splice
    && equals a.splice_immediate b.splice_immediate
    && equals a.splice_time b.splice_time
    && equals a.components b.components
    && equals a.break_duration b.break_duration
    && equals a.unique_program_id b.unique_program_id
    && equals a.avail_num b.avail_num
    && equals a.avails_expected b.avails_expected

pub equal_insert_cancel_off_iff :
    (a b : InsertCancelOff) → (equal_insert_cancel_off a b ≡ true) ↔ (a ≡ b)
unfolding equal_insert_cancel_off
equal_insert_cancel_off_iff a b =
    let fields =
      equals_iff a.out_of_network b.out_of_network
      &&↔ equals_iff a.program_splice b.program_splice
      &&↔ equals_iff a.splice_immediate b.splice_immediate
      &&↔ equals_iff a.splice_time b.splice_time
      &&↔ equals_iff a.components b.components
      &&↔ equals_iff a.break_duration b.break_duration
      &&↔ equals_iff a.unique_program_id b.unique_program_id
      &&↔ equals_iff a.avail_num b.avail_num
      &&↔ equals_iff a.avails_expected b.avails_expected in
    (
      (λ h. let same = fields.0 h in cc),
      λ e. fields.1 ((((((((cc, cc), cc), cc), cc), cc), cc), cc), cc),
    )

instance abbrev pub insert_cancel_off_eq : Comparable InsertCancelOff
insert_cancel_off_eq = record {
  test = equal_insert_cancel_off;
  decides = equal_insert_cancel_off_iff;
}

-- SpliceInsert
unfoldable pub equal_insert : SpliceInsert → SpliceInsert → Bool
equal_insert a b = equals a.id b.id && equals a.more b.more

pub equal_insert_iff : (a b : SpliceInsert) → (equal_insert a b ≡ true) ↔ (a ≡ b)
unfolding equal_insert
equal_insert_iff a b = ground (arith, equals_iff a.id b.id, equals_iff a.more b.more)

instance abbrev pub insert_eq : Comparable SpliceInsert
insert_eq = record { test = equal_insert; decides = equal_insert_iff }

-- SpliceInfoSection::Command
unfoldable pub equal_command : Command → Command → Bool
equal_command splice_null b = elim b [ splice_null ↦ true | _ ↦ false ]
equal_command (splice_schedule x) b = elim b [ splice_schedule y ↦ equals x y | _ ↦ false ]
equal_command (splice_insert x) b = elim b [ splice_insert y ↦ equals x y | _ ↦ false ]
equal_command (time_signal x) b = elim b [ time_signal y ↦ equals x y | _ ↦ false ]
equal_command bandwidth_reservation b = elim b [ bandwidth_reservation ↦ true | _ ↦ false ]
equal_command (private_command x xs) b = elim b [
  | private_command y ys ↦ equals x y && equals xs ys
  | _ ↦ false
]

pub equal_command_iff : (a b : Command) → (equal_command a b ≡ true) ↔ (a ≡ b)
unfolding equal_command
equal_command_iff splice_null b =
    elim b as (λ k. (equal_command splice_null k ≡ true) ↔ (splice_null ≡ k)) [
      | splice_null ↦ ((λ h. refl), λ h. refl)
      | _ ↦ (cc, cc)
    ]
equal_command_iff (splice_schedule x) b =
    elim b as (λ k. (equal_command (splice_schedule x) k ≡ true) ↔ (splice_schedule x ≡ k)) [
      | splice_schedule y ↦ ground (arith, equals_iff x y)
      | _ ↦ (cc, cc)
    ]
equal_command_iff (splice_insert x) b =
    elim b as (λ k. (equal_command (splice_insert x) k ≡ true) ↔ (splice_insert x ≡ k)) [
      | splice_insert y ↦ ground (arith, equals_iff x y)
      | _ ↦ (cc, cc)
    ]
equal_command_iff (time_signal x) b =
    elim b as (λ k. (equal_command (time_signal x) k ≡ true) ↔ (time_signal x ≡ k)) [
      | time_signal y ↦ ground (arith, equals_iff x y)
      | _ ↦ (cc, cc)
    ]
equal_command_iff bandwidth_reservation b =
    elim b as (λ k. (equal_command bandwidth_reservation k ≡ true) ↔ (bandwidth_reservation ≡ k)) [
      | bandwidth_reservation ↦ ((λ h. refl), λ h. refl)
      | _ ↦ (cc, cc)
    ]
equal_command_iff (private_command x xs) b =
    elim b as (λ k. (equal_command (private_command x xs) k ≡ true) ↔ (private_command x xs ≡ k)) [
      | private_command y ys ↦ ground (arith, equals_iff x y, equals_iff xs ys)
      | _ ↦ (cc, cc)
    ]

instance abbrev pub command_eq : Comparable Command
command_eq = record { test = equal_command; decides = equal_command_iff }

-- SpliceInfoSection::Descriptor
unfoldable pub equal_descriptor : Descriptor → Descriptor → Bool
equal_descriptor (avail x) b = elim b [ avail y ↦ equals x y | _ ↦ false ]
equal_descriptor (dtmf x xs) b = elim b [ dtmf y ys ↦ equals x y && equals xs ys | _ ↦ false ]
equal_descriptor (segmentation x) b = elim b [ segmentation y ↦ equals x y | _ ↦ false ]
equal_descriptor (time_descriptor s n o) b = elim b [
  | time_descriptor s' n' o' ↦ equals s s' && equals n n' && equals o o'
  | _ ↦ false
]

pub equal_descriptor_iff : (a b : Descriptor) → (equal_descriptor a b ≡ true) ↔ (a ≡ b)
unfolding equal_descriptor
equal_descriptor_iff (avail x) b =
    elim b as (λ k. (equal_descriptor (avail x) k ≡ true) ↔ (avail x ≡ k)) [
      | avail y ↦ ground (arith, equals_iff x y)
      | _ ↦ (cc, cc)
    ]
equal_descriptor_iff (dtmf x xs) b =
    elim b as (λ k. (equal_descriptor (dtmf x xs) k ≡ true) ↔ (dtmf x xs ≡ k)) [
      | dtmf y ys ↦ ground (arith, equals_iff x y, equals_iff xs ys)
      | _ ↦ (cc, cc)
    ]
equal_descriptor_iff (segmentation x) b =
    elim b as (λ k. (equal_descriptor (segmentation x) k ≡ true) ↔ (segmentation x ≡ k)) [
      | segmentation y ↦ ground (arith, equals_iff x y)
      | _ ↦ (cc, cc)
    ]
equal_descriptor_iff (time_descriptor s n o) b =
    elim b
      as (λ k. (equal_descriptor (time_descriptor s n o) k ≡ true) ↔ (time_descriptor s n o ≡ k)) [
        | time_descriptor s' n' o' ↦
            ground (arith, equals_iff s s', equals_iff n n', equals_iff o o')
        | _ ↦ (cc, cc)
      ]

instance abbrev pub descriptor_eq : Comparable Descriptor
descriptor_eq = record { test = equal_descriptor; decides = equal_descriptor_iff }

-- SpliceInfoSection
unfoldable pub equal_section : SpliceInfoSection → SpliceInfoSection → Bool
equal_section a b =
    equals a.encrypted_packet b.encrypted_packet
    && equals a.encryption_algorithm b.encryption_algorithm
    && equals a.pts_adjustment b.pts_adjustment
    && equals a.cw_index b.cw_index
    && equals a.tier b.tier
    && equals a.command b.command
    && equals a.descriptors b.descriptors

-- Two sections compare as equal exactly if they agree in every field of every part.
pub equal_section_iff : (a b : SpliceInfoSection) → (equal_section a b ≡ true) ↔ (a ≡ b)
unfolding equal_section
equal_section_iff a b = ground (
  arith,
  equals_iff a.encrypted_packet b.encrypted_packet,
  equals_iff a.encryption_algorithm b.encryption_algorithm,
  equals_iff a.pts_adjustment b.pts_adjustment,
  equals_iff a.cw_index b.cw_index,
  equals_iff a.tier b.tier,
  equals_iff a.command b.command,
  equals_iff a.descriptors b.descriptors,
)
