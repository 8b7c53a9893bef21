-- ===== src/Prefix/Tests.antt =====
-- The tests of store.rs, and the laws of key prefixes at inputs.
use k8s_1m.Prelude.{◌≡◌, refl, [], ◌++◌, ◌&&◌, Bytes, bytes, some, bytes_eq}
use k8s_1m.Prefix.{
  registry, prefix_split, prefix_and_range_of_key, included, excluded, unbounded, in_range,
  contains,
}
use k8s_1m.Prefix.Split.{
  CutSo, IsResourcePrefix, plain, prefix_split-RestCut, prefix_split-IsResourcePrefix,
}
use k8s_1m.Prefix.Bounds.{between, between-eq-in_range, range_exact}

split_short : prefix_split (bytes "/a/b/c") ≡ ([], bytes "/a/b/c")
unfolding prefix_split
split_short = refl

split_pods :
    prefix_split (bytes "/registry/pods/kube-system/foo")
    ≡ (bytes "/registry/pods/", bytes "kube-system/foo")
unfolding prefix_split
split_pods = refl

split_group :
    prefix_split (bytes "/registry/apigroup-example.com/my-resources/my-namespace/foo")
    ≡ (bytes "/registry/apigroup-example.com/my-resources/", bytes "my-namespace/foo")
unfolding prefix_split
split_group = refl

range_accounts :
    prefix_and_range_of_key
      (bytes "/registry/serviceaccounts/")
      (bytes "/registry/serviceaccounts0")
    ≡ some (bytes "/registry/serviceaccounts/", included [], unbounded)
unfolding prefix_and_range_of_key prefix_split
range_accounts = refl

range_boot :
    prefix_and_range_of_key (bytes "/bootstrap") (bytes "/bootstraq")
    ≡ some ([], included (bytes "/bootstrap"), excluded (bytes "/bootstraq"))
unfolding prefix_and_range_of_key prefix_split
range_boot = refl

abbrev pod : Bytes
pod = bytes "/registry/pods/kube-system/foo"

prefix_split-RestCut_example :
    CutSo (bytes "pods/kube-system/foo") (prefix_split (registry ++ bytes "pods/kube-system/foo"))
prefix_split-RestCut_example = prefix_split-RestCut (bytes "pods/kube-system/foo")

pods-IsResourcePrefix : IsResourcePrefix (bytes "/registry/pods/")
unfolding contains
pods-IsResourcePrefix = plain (bytes "pods") refl refl

prefix_split-IsResourcePrefix_example :
    prefix_split (bytes "/registry/pods/" ++ bytes "a/b") ≡ (bytes "/registry/pods/", bytes "a/b")
prefix_split-IsResourcePrefix_example =
    prefix_split-IsResourcePrefix pods-IsResourcePrefix (bytes "a/b")

-- The pods of a namespace.
range_pods :
    prefix_and_range_of_key (bytes "/registry/pods/default/") (bytes "/registry/pods/default0")
    ≡ some (bytes "/registry/pods/", included (bytes "default/"), excluded (bytes "default0"))
unfolding prefix_and_range_of_key prefix_split
range_pods = refl

between-eq-in_range_example :
    between (included (bytes "default/")) (excluded (bytes "default0")) (bytes "kube-system/foo")
    ≡ in_range (bytes "/registry/pods/default/") (bytes "/registry/pods/default0") pod
between-eq-in_range_example =
    between-eq-in_range (bytes "/registry/pods/default/") (bytes "/registry/pods/default0")
      (bytes "/registry/pods/") (included (bytes "default/")) (excluded (bytes "default0")) pod
      (bytes "kube-system/foo") range_pods split_pods

range_exact_example :
    in_range (bytes "/registry/pods/default/") (bytes "/registry/pods/default0") pod ≡ (
      bytes_eq (prefix_split pod).0 (bytes "/registry/pods/")
      && between (included (bytes "default/")) (excluded (bytes "default0")) (prefix_split pod).1)
range_exact_example =
    range_exact (bytes "/registry/pods/default/") (bytes "/registry/pods/default0")
      (bytes "/registry/pods/") (included (bytes "default/")) (excluded (bytes "default0")) pod
      range_pods pods-IsResourcePrefix
