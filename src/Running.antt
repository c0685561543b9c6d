-- ===== src/Running.antt =====
-- The functions of the model opened together, so that a test or an example at a concrete input
-- names one definition on its `unfolding` line.
use sigv4_verify.Base.{bytes_eq}
use sigv4_verify.Hex.{
  is_unreserved, is_hex, from_hex, hex_byte, upper_hex, hex_upper, hex_lower, write_escaped_byte,
  append_hex_lower,
}
use sigv4_verify.Percent.{
  percent_decode, needs_slow_path_loop, query_component_needs_slow_path, encode_byte,
  canonicalize_loop, canonicalize_query_component,
}
use sigv4_verify.Text.{any, split_once, split}
use sigv4_verify.Text.Utf8.{utf8_tail, is_utf8_after, is_utf8}
use sigv4_verify.Uri.{
  has_double_slash, validate_bytes, validate_segment, validate_segments, validate_raw_path,
  split_original_uri, canonical_loop, is_canonical_path, canonical_uri_from_valid_path,
}
use sigv4_verify.Query.{
  known_name, is_known_query_name, store, set, single_known_query_value, canonical_part,
  canonical_parts, bytes_le, param_le, insert_param, sort_params, write_params, canonical_query,
}
use sigv4_verify.Query.Params.{decode_part, decode_parts}
use sigv4_verify.Scope.{all_digits, scope_of_parts, parse_credential_scope}
use sigv4_verify.Base.Int.{◌+ℤ◌, ◌-ℤ◌, ◌*ℤ◌, ◌/ℤ◌, ◌%ℤ◌, saturate}
use sigv4_verify.Date.{
  parse_digits_loop, parse_digits_i32, parse_digits_u32, is_leap_year, days_in_month, i32_of_word,
  wrap_i32, era_of, days_from_march, days_from_civil, in_calendar, epoch_of, parse_amz_date,
}
use sigv4_verify.Text.Trim.{white_width, white_width_back, skip_white, reverse, trim}
use sigv4_verify.Text.Decimal.{u64_digits, parse_u64, decimal_loop, to_string}
use sigv4_verify.Signing.Locks.{count, is_blocked, advance}
use sigv4_verify.Verifier.{
  contains, insert, lookup, normalize_method, normalize_host, compile_methods, compile_hosts,
  compile_prefixes, hash_access_key, compile_credential, compile_credentials, normalize_settings,
  compile_state, reload, ascii_upper_cow, ascii_lower_cow, strip_prefix, path_matches_prefix,
  any_prefix, system_time_epoch_seconds, read_metadata, read_uri, set_cache, read_scope, read_date,
  read_expiry, find_credential, check_times, check_signature, check_request, verify,
}
use sigv4_verify.Config.{
  parse_mode, merge, parse_on_off, duration_loop, parse_duration, set_secret, push_policy,
  set_argument, parse_argument, parse_arguments, validate, parse_directive, strip_newlines,
  read_secret, load_secret, resolve,
}
use sigv4_verify.Config.UnitTests.{
  for_all, remove, parses_full_credential_directive, parses_explicit_allow_any_flags,
  rejects_blank_policy_list_values, rejects_omitted_policy_lists_without_explicit_flags,
  rejects_conflicting_policy_arguments, rejects_malformed_arguments,
  loads_secret_from_file_and_trims_trailing_newline, rejects_missing_and_empty_secret_files,
  parses_durations, parses_mode_and_merges,
}
use sigv4_verify.Signing.{
  find_entry, remove_entry, pop_back, shrink, read_step, derive_key, write_step, signing_key,
  hash_canonical_request, string_to_sign, sign, decode_pairs, decode_signature,
}
use sigv4_verify.Text.Lossy.{lossy_loop, from_utf8_lossy}
use sigv4_verify.Verifier.History.{call, run, answers}
use sigv4_verify.Verifier.Shared.{cache_of, look, fill, finish}
use sigv4_verify.Internals
use sigv4_verify.Presigner
use sigv4_verify.Presigner.{
  is_below_hex, uri_encode, test_canonical_path, encoded_part, encoded_parts, test_canonical_query,
  test_signature, presigned_uri,
}
use sigv4_verify.Fuzz.{
  is_canonical_form, fuzz_canonical_path, fuzz_canonical_query, fuzz_split_uri, has_window,
  fuzz_verify,
}
use sigv4_verify.Nginx.{
  all_utf8, directive_args, set_mode, set_main_duration, set_clock_skew, set_default_max_expires,
  check_methods, set_methods, set_main_flag, set_log_denies, set_log_all, has_access_key,
  set_credential, call_command, guard_conf, merge_loc, settings_of, resolve_all, compile_main,
  init_main_conf, alloc_ctx, judged_ctx, log_line, log_of, judge, with_verifier, handle_request,
  after_panic, access_handler, bind_variable, variable_result, variable_reason,
  variable_access_key_hash, variable_latency_us, get_variable, add_variables, postconfiguration,
}

unfoldable pub running : Unit {0}
unfolding bytes_eq is_unreserved is_hex from_hex hex_byte upper_hex hex_upper hex_lower
    write_escaped_byte append_hex_lower percent_decode needs_slow_path_loop
    query_component_needs_slow_path encode_byte canonicalize_loop canonicalize_query_component any
    split_once split is_utf8 has_double_slash validate_bytes validate_segment validate_segments
    validate_raw_path split_original_uri canonical_loop is_canonical_path
    canonical_uri_from_valid_path known_name is_known_query_name store set single_known_query_value
    canonical_part canonical_parts bytes_le param_le insert_param sort_params write_params
    canonical_query decode_part decode_parts all_digits scope_of_parts parse_credential_scope
    find_entry remove_entry pop_back shrink read_step derive_key write_step signing_key
    hash_canonical_request string_to_sign sign decode_pairs decode_signature ◌+ℤ◌ ◌-ℤ◌ ◌*ℤ◌ ◌/ℤ◌
    ◌%ℤ◌ saturate parse_digits_loop parse_digits_i32 parse_digits_u32 is_leap_year days_in_month
    count is_blocked advance i32_of_word wrap_i32 era_of days_from_march days_from_civil in_calendar
    epoch_of parse_amz_date white_width white_width_back skip_white reverse trim u64_digits
    parse_u64 contains insert lookup normalize_method normalize_host compile_methods compile_hosts
    compile_prefixes hash_access_key compile_credential compile_credentials normalize_settings
    compile_state reload ascii_upper_cow ascii_lower_cow strip_prefix path_matches_prefix any_prefix
    system_time_epoch_seconds read_metadata read_uri set_cache read_scope read_date read_expiry
    find_credential check_times check_signature check_request verify parse_mode merge parse_on_off
    duration_loop parse_duration set_secret push_policy set_argument parse_argument parse_arguments
    validate parse_directive strip_newlines read_secret load_secret resolve for_all remove
    parses_full_credential_directive parses_explicit_allow_any_flags
    rejects_blank_policy_list_values rejects_omitted_policy_lists_without_explicit_flags
    rejects_conflicting_policy_arguments rejects_malformed_arguments
    loads_secret_from_file_and_trims_trailing_newline rejects_missing_and_empty_secret_files
    parses_durations parses_mode_and_merges decimal_loop to_string lossy_loop from_utf8_lossy
    utf8_tail is_utf8_after call run answers cache_of look fill finish all_utf8 directive_args
    set_mode set_main_duration set_clock_skew set_default_max_expires check_methods set_methods
    set_main_flag set_log_denies set_log_all has_access_key set_credential call_command guard_conf
    merge_loc settings_of resolve_all compile_main init_main_conf alloc_ctx judged_ctx log_line
    log_of judge with_verifier handle_request after_panic access_handler bind_variable
    variable_result variable_reason variable_access_key_hash variable_latency_us get_variable
    add_variables postconfiguration is_canonical_form fuzz_canonical_path fuzz_canonical_query
    fuzz_split_uri has_window fuzz_verify is_below_hex uri_encode Presigner.percent_decode
    test_canonical_path encoded_part encoded_parts test_canonical_query test_signature presigned_uri
    Internals.split_original_uri Internals.validate_raw_path Internals.canonical_query
    Internals.canonical_uri_from_valid_path Internals.percent_decode
    Internals.parse_credential_scope Internals.parse_amz_date
running = tt
