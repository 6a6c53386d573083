-- ===== src/Dpm/SinkCap/Contents.antt =====
-- What a source reads in the Sink_Capabilities message of src/device_policy_manager.c.
use usb_pd_firmware.Prelude.{
  ℕ, ◌^◌, ◌≤◌, ◌≡◌, ◌⊎◌, inl, inr, refl, ◌∙◌, bit_or, ◌==◌, leb, if◌then◌else◌, Option, none, some,
  List, length, get_or, length-set, get_or-set_self, get_or-set_ne, Bool-cases, arith, Ends,
  Ends->>=,
}
use usb_pd_firmware.Bits.{field, place, field-bit_or_left, field-bit_or_right}
use usb_pd_firmware.Pd.{
  PdMsg, msgtype_get, numobj_get, numobj, specrev_get, specrev_3_0, obj_at, pdo_type,
  pdo_type_augmented, src_fixed_voltage_get, mv2pdv, mv2pav, ca2pai,
}
use usb_pd_firmware.Config.{PdbsConfig, config_read}
use usb_pd_firmware.Dpm.{
  PdbsDpmData, Sink, dpm_get_current, dpm_get_range_fixed_pdo_index, dpm_min_current,
}
use usb_pd_firmware.Dpm.SinkCap.{
  Objects, add_pdo, change, sink_fixed_pdo, use_range, pps_apdo, configured, add_configured,
  pdbs_dpm_get_sink_capability, vsafe5v, sink_flags,
}
use usb_pd_firmware.Dpm.SinkCap.Objects.{
  IsVsafe5v, Begun, Sorted, Begun-more, change-Begun, add_pdo-Begun, use_range-Begun, flag_lem,
  fixed_pdo_lem,
}
use usb_pd_firmware.Pd.MsgType
use usb_pd_firmware.Dpm.Request.Total.{Divides, get_current-Returns, index-Returns}

-- What the message is to have, before the header is made: with a third object, the second and the
-- third are sorted by voltage, or the third is the APDO.
record Listed (o : Objects) : Type 0 where
  begun : Begun 4 o
  sorted : (pdo_type (get_or (o.0) 2 0) ≡ pdo_type_augmented) ⊎ Sorted o

pps_apdo-type : (v i : ℕ) → pdo_type (pps_apdo v i) ≡ pdo_type_augmented
unfolding pps_apdo
pps_apdo-type v i =
    field-bit_or_left
      (bit_or (bit_or (place 3 30 2) (place (mv2pav v) 17 8)) (place (mv2pav v) 8 8))
      (place (ca2pai i) 0 7) 30 2 (omega arith)
    ∙ (field-bit_or_left (bit_or (place 3 30 2) (place (mv2pav v) 17 8)) (place (mv2pav v) 8 8) 30 2
          (omega arith)
        ∙ field-bit_or_left (place 3 30 2) (place (mv2pav v) 17 8) 30 2 (omega arith))

number_cases : (n : ℕ) → n ≤ 3 → (n ≤ 1) ⊎ ((n ≡ 2) ⊎ (n ≡ 3))
number_cases n h = ground arith

add_pps-Listed : (v i : ℕ) (o : Objects) → Begun 3 o → Sorted o → Listed (add_pdo (pps_apdo v i) o)
unfolding add_pdo
add_pps-Listed v i (os, n) h sorted = record {
  begun = add_pdo-Begun 3 (pps_apdo v i) (os, n) (omega arith) h;
  sorted = elim (number_cases n h.few) [
    | inl few ↦ inr (inl (omega (arith, few)))
    | inr (inl two) ↦ inl (
        rw two
          (rw (get_or-set_self os 2 (pps_apdo v i) 0 (omega (arith, h.room))) (pps_apdo-type v i)))
    | inr (inr three) ↦ inr (
        rw three (
          inr (
            rw
              (
                get_or-set_ne os 3 1 (pps_apdo v i) 0 (λ e. omega (arith, e)),
                get_or-set_ne os 3 2 (pps_apdo v i) 0 (λ e. omega (arith, e)),
              )
              (ground (arith, three, sorted)))))
  ];
}

-- No object yet, and 5 V wanted, or the object for 5 V.
Started : ℕ → Objects → Type 0
Started v o = ((length (o.0) ≡ 7) × (o.1 ≡ 0) × (mv2pdv v ≡ mv2pdv 5000)) ⊎ Begun 1 o

desired-Begun :
    (v i : ℕ) (o : Objects) → Started v o → Begun 2 (add_pdo (sink_fixed_pdo (mv2pdv v) i) o)
unfolding Started add_pdo
desired-Begun v i (os, n) (inl (room, none_yet, five)) = record {
  room = length-set os n _ ∙ room;
  some_pdo = omega arith;
  few = omega (arith, none_yet);
  first =
      rw (none_yet, get_or-set_self os 0 (sink_fixed_pdo (mv2pdv v) i) 0 (omega (arith, room)))
        (fixed_pdo_lem (mv2pdv v) i five);
}
desired-Begun v i o (inr h) = add_pdo-Begun 1 _ o (omega arith) h

vsafe5v-Begun :
    (i : ℕ) (os : List ℕ)
    → length os ≡ 7
    → Begun 1 (add_pdo (sink_fixed_pdo (mv2pdv 5000) i) (os, 0))
unfolding add_pdo
vsafe5v-Begun i os room = record {
  room = length-set os 0 _ ∙ room;
  some_pdo = omega arith;
  few = omega arith;
  first =
      rw (get_or-set_self os 0 (sink_fixed_pdo (mv2pdv 5000) i) 0 (omega (arith, room)))
        (fixed_pdo_lem (mv2pdv 5000) i refl);
}

vsafe5v-Started :
    (scfg : PdbsConfig) (os : List ℕ) → length os ≡ 7 → Started scfg.v (vsafe5v (some scfg) (os, 0))
unfolding Started vsafe5v
vsafe5v-Started scfg os room = elim (Bool-cases (mv2pdv scfg.v == mv2pdv 5000)) [
  | inl five ↦ rw five (inl (room, refl, ground (arith, five)))
  | inr other ↦ rw other (inr (vsafe5v-Begun dpm_min_current os room))
]

flag-Listed :
    (w : ℕ) (o : Objects)
    → field w 30 2 ≡ 0
    → field w 10 10 ≡ 0
    → Listed o
    → Listed (change 0 (λ pdo. bit_or pdo w) o)
unfolding change
flag-Listed w (os, n) high low h = record {
  begun = change-Begun 4 (λ pdo. bit_or pdo w) (os, n) (λ pdo. flag_lem w pdo high low) h.begun;
  sorted =
      rw
        (
          get_or-set_ne os 0 1 (bit_or (get_or os 0 0) w) 0 (λ e. omega (arith, e)),
          get_or-set_ne os 0 2 (bit_or (get_or os 0 0) w) 0 (λ e. omega (arith, e)),
        )
        h.sorted;
}

sink_flags-Listed : (d : PdbsDpmData) (o : Objects) → Listed o → Listed (sink_flags d o)
unfolding sink_flags
sink_flags-Listed d o h = elim (Bool-cases d.unconstrained_power) [
  | inl u ↦ elim (Bool-cases d.usb_comms) [
    | inl c ↦ rw (u, c) (flag-Listed (2 ^ 26) _ refl refl (flag-Listed (2 ^ 27) o refl refl h))
    | inr c ↦ rw (u, c) (flag-Listed (2 ^ 27) o refl refl h)
  ]
  | inr u ↦ elim (Bool-cases d.usb_comms) [
    | inl c ↦ rw (u, c) (flag-Listed (2 ^ 26) o refl refl h)
    | inr c ↦ rw (u, c) h
  ]
]

configured-Listed :
    (d : PdbsDpmData) (m caps : PdMsg) (scfg : PdbsConfig) (o : Objects)
    → Divides (some scfg)
    → d.capabilities ≡ some caps
    → Started scfg.v o
    → Ends Listed (configured d (some m) scfg o)
unfolding configured
configured-Listed d m caps scfg o ok there started = rw there (
    Ends->>= (λ _. Unit {0}) Listed (dpm_get_current scfg scfg.v) _
      (get_current-Returns caps scfg ok scfg.v)
      (λ current _.
        Ends->>= (λ _. Unit {0}) Listed (dpm_get_range_fixed_pdo_index caps scfg) _
          (index-Returns caps scfg ok) (λ at _. listed current at)))
  where
    listed :
        (current : ℕ) (at : Option ℕ)
        → Listed (
            let o' =
              use_range caps scfg.v current at
                (add_pdo (sink_fixed_pdo (mv2pdv scfg.v) current) o) in
            if leb specrev_3_0 (specrev_get m.hdr)
            then add_pdo (pps_apdo scfg.v current) o'
            else o')
    listed current at =
        let (begun, sorted) =
          use_range-Begun caps scfg.v current at _ (desired-Begun scfg.v current o started) in
        elim (Bool-cases (leb specrev_3_0 (specrev_get m.hdr))) [
          | inl three ↦ rw three (add_pps-Listed scfg.v current _ begun sorted)
          | inr two ↦ rw two (record { begun = Begun-more 3 _ begun; sorted = inr sorted })
        ]

-- What a source reads.
pub record IsSinkCap (t : ℕ) (m : PdMsg) : Type 0 where
  pub kind : msgtype_get m ≡ MsgType.sink_capabilities
  pub revision : specrev_get m.hdr ≡ specrev_get t
  pub some_pdo : 1 ≤ numobj_get m
  pub few : numobj_get m ≤ 4
  pub first : IsVsafe5v (obj_at m 0)
  pub sorted :
      (pdo_type (obj_at m 2) ≡ pdo_type_augmented)
      ⊎ ((numobj_get m ≤ 2)
          ⊎ (src_fixed_voltage_get (obj_at m 1) ≤ src_fixed_voltage_get (obj_at m 2)))

header-IsSinkCap :
    (t : ℕ) (os : List ℕ) (n : ℕ)
    → field t 0 5 ≡ 0
    → field t 12 3 ≡ 0
    → Listed (os, n)
    → IsSinkCap t
        (record { hdr = bit_or (bit_or t MsgType.sink_capabilities) (numobj n); obj = os })
header-IsSinkCap t os n no_type no_objects h = record {
  kind =
      field-bit_or_left (bit_or t MsgType.sink_capabilities) (numobj n) 0 5 (omega arith)
      ∙ field-bit_or_right t MsgType.sink_capabilities 0 5 no_type;
  revision =
      field-bit_or_left (bit_or t MsgType.sink_capabilities) (numobj n) 6 2 (omega arith)
      ∙ field-bit_or_left t MsgType.sink_capabilities 6 2 refl;
  some_pdo = rw count h.begun.some_pdo;
  few = rw count h.begun.few;
  first = h.begun.first;
  sorted = rw count h.sorted;
}
  where
    count : field (bit_or (bit_or t MsgType.sink_capabilities) (numobj n)) 12 3 ≡ n
    count =
        field-bit_or_right (bit_or t MsgType.sink_capabilities) (numobj n) 12 3
          (field-bit_or_right t MsgType.sink_capabilities 12 3 no_objects)
        ∙ omega (arith, h.begun.few)

add_configured-Listed :
    (d : PdbsDpmData) (m caps : PdMsg) (c : Option PdbsConfig) (os : List ℕ)
    → Divides c
    → d.capabilities ≡ some caps
    → length os ≡ 7
    → Ends Listed (add_configured d (some m) c (vsafe5v c (os, 0)))
unfolding add_configured vsafe5v
add_configured-Listed d m caps none os ok there room =
    let begun = vsafe5v-Begun dpm_min_current os room in
    record {
      begun = Begun-more 3 _ (Begun-more 2 _ (Begun-more 1 _ begun));
      sorted = inr (inl (omega (arith, begun.few)));
    }
add_configured-Listed d m caps (some scfg) os ok there room =
    configured-Listed d m caps scfg _ ok there (vsafe5v-Started scfg os room)

-- The answer to a Get_Sink_Cap message, for a message to read the revision from, capabilities of the
-- source, a template without a type and a number of objects, a buffer of seven objects, and a
-- configuration whose current takes no division by a voltage or by zero: it is a Sink_Capabilities
-- message of the template's revision with one to four objects, the first of them a fixed supply of
-- 5 V; if it has more than two, the second and the third are sorted by voltage, or the third is an
-- APDO.
pub get_sink_capability-IsSinkCap :
    (t : ℕ) (m caps cap : PdMsg) (s : Sink)
    → Divides (config_read s.flash).0
    → s.dpm_data.capabilities ≡ some caps
    → field t 0 5 ≡ 0
    → field t 12 3 ≡ 0
    → length cap.obj ≡ 7
    → Ends (λ a. IsSinkCap t (a.0)) (pdbs_dpm_get_sink_capability t (some m) cap s)
unfolding pdbs_dpm_get_sink_capability
get_sink_capability-IsSinkCap t m caps cap s ok there no_type no_objects room =
    Ends->>= Listed (λ a. IsSinkCap t (a.0)) _ _
      (add_configured-Listed s.dpm_data m caps (config_read s.flash).0 cap.obj ok there room)
      (λ (os, n) h.
        header-IsSinkCap t _ _ no_type no_objects (sink_flags-Listed s.dpm_data (os, n) h))
