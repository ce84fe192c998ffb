-- ===== src/Fault.antt =====
-- fault/fault.go: the error values that the modelled code returns.
pub data Fault : Type 0 where
  not_transaction_pack : Fault
  invalid_owner_or_registrant : Fault
  signature_too_long : Fault
  name_too_long : Fault
  fingerprint_too_short : Fault
  fingerprint_too_long : Fault
  metadata_too_long : Fault
  metadata_is_not_map : Fault
  share_quantity_too_small : Fault
  share_ids_cannot_be_identical : Fault
  invalid_payment_version : Fault
  invalid_currency_address : Fault
  invalid_currency : Fault
  invalid_buffer : Fault
  invalid_count : Fault
  wrong_network_for_public_key : Fault
  not_public_key : Fault
  invalid_key_type : Fault
  invalid_key_length : Fault
  invalid_signature : Fault
  cannot_decode_account : Fault
  checksum_mismatch : Fault
  not_link : Fault
  not_asset_id : Fault
  payment_address_too_long : Fault
  invalid_bitcoin_address : Fault
  invalid_litecoin_address : Fault
  bitcoin_address_for_wrong_network : Fault
  litecoin_address_for_wrong_network : Fault
  invalid_block_header_size : Fault
  invalid_block_header_version : Fault
  invalid_block_header_timestamp : Fault
  transaction_count_out_of_range : Fault
  height_out_of_sequence : Fault
  block_version_must_not_decrease : Fault
  previous_block_digest_does_not_match : Fault
  batch_already_in_use : Fault
  database_write_failed : Fault
  not_owner_data_pack : Fault
  missing_owner_data : Fault
  votes_insufficient : Fault
  votes_with_empty_winner : Fault
  votes_with_zero_count : Fault
  votes_with_zero_height : Fault
