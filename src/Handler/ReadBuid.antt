-- ===== src/Handler/ReadBuid.antt =====
-- handler/read_buid.rs: the id of the system, which is made where the file that holds it is missing.
use rusbmux.Base.{ℕ, ◌≡◌, refl, ap, ◌∙◌, Bool, true, false, List, if◌then◌else◌}
use rusbmux.Error
use rusbmux.Error.{
  Result, err, RusbmuxError, unexpected_packet, value_not_found, system_buid, invalid_data,
  bad_device_or_no_such_file,
}
use rusbmux.Handler.{Session, send_result}
use rusbmux.Handler.Answers.{Ran, answer, packet_of}

-- A plist of the file, as far as the handler looks into it.
pub data SystemConfig : Type 0 where
  no_dictionary no_buid no_string : SystemConfig
  buid : List ℕ → SystemConfig

-- The file SystemConfiguration.plist. `config_bytes` is the plist of a new id.
pub record ConfigFile (Value World : Type 0) : Type 0 where
  pub exists : World → Bool
  pub write : List ℕ → World → World × Result (Unit {0})
  pub from_file : World → Result SystemConfig
  pub config_bytes : List ℕ → List ℕ
  pub buid_value : List ℕ → Value

module _ {Value World : Type 0} (x : Session Value World) (f : ConfigFile Value World) where
  abbrev pub answer_config : ℕ → World → Result SystemConfig → Ran World
  answer_config tag w (err e) = (w, err e)
  answer_config tag w (Error.ok no_dictionary) = (w, err unexpected_packet)
  answer_config tag w (Error.ok no_buid) = (w, err (value_not_found system_buid))
  answer_config tag w (Error.ok no_string) = (w, err invalid_data)
  answer_config tag w (Error.ok (buid id)) = answer x (f.buid_value id) tag w

  -- The result of the answer to a failed write is not looked at.
  abbrev pub created : ℕ → World × Result (Unit {0}) → Ran World
  created tag (w, err e) = ((send_result x bad_device_or_no_such_file tag w).0, Error.ok tt)
  created tag (w, Error.ok u) = answer_config tag w (f.from_file w)

  -- `id`: the new id, should one be needed.
  unfoldable pub handle_read_buid : List ℕ → ℕ → World → Ran World
  unfolding send_result
  handle_read_buid id tag w =
      if f.exists w
      then answer_config tag w (f.from_file w)
      else created tag (f.write (f.config_bytes id) w)

  -- What the file system does: a file that has been written is there and has what was written, and the writes to the
  -- client leave it alone.
  pub record ConfigLaws : Type 0 where
    pub write_exists :
        (id : List ℕ) (w w' : World)
        → f.write (f.config_bytes id) w ≡ (w', Error.ok tt)
        → f.exists w' ≡ true
    pub from_file_write :
        (id : List ℕ) (w w' : World)
        → f.write (f.config_bytes id) w ≡ (w', Error.ok tt)
        → f.from_file w' ≡ Error.ok (buid id)
    pub exists_answer : (bytes : List ℕ) (w : World) → f.exists (x.write bytes w).0 ≡ f.exists w
    pub from_file_answer :
        (bytes : List ℕ) (w : World) → f.from_file (x.write bytes w).0 ≡ f.from_file w

  handle_existing :
      (id id' : List ℕ) (tag : ℕ) (w : World)
      → f.exists w ≡ true
      → f.from_file w ≡ Error.ok (buid id)
      → handle_read_buid id' tag w ≡ answer x (f.buid_value id) tag w
  unfolding handle_read_buid
  handle_existing id id' tag w there reads = rw (there, reads) refl

  -- Where the file is missing and can be written, the client gets the new id, and every later client gets the same id,
  -- whatever id would be new then.
  pub handle_read_buid_again :
      (laws : ConfigLaws) (id id' : List ℕ) (tag tag' : ℕ) (w w' : World)
      → f.exists w ≡ false
      → f.write (f.config_bytes id) w ≡ (w', Error.ok tt)
      → (handle_read_buid id tag w ≡ answer x (f.buid_value id) tag w')
        × (handle_read_buid id' tag' (handle_read_buid id tag w).0
            ≡ answer x (f.buid_value id) tag' (answer x (f.buid_value id) tag w').0)
  unfolding handle_read_buid
  handle_read_buid_again laws id id' tag tag' w w' missing wrote =
      let reads = laws.from_file_write id w w' wrote in
      let there = laws.write_exists id w w' wrote in
      let first : handle_read_buid id tag w ≡ answer x (f.buid_value id) tag w' =
        rw (missing, wrote, reads) refl in
      let bytes = packet_of x (f.buid_value id) tag in
      (
        first,
        ap (λ r. handle_read_buid id' tag' r.0) first
            ∙ handle_existing id id' tag' (x.write bytes w').0 (laws.exists_answer bytes w' ∙ there)
                (laws.from_file_answer bytes w' ∙ reads),
      )
