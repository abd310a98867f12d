-- ===== src/Lib.antt =====
-- A model of the core of the ClustR backend, a Django program that runs housing estates
-- ("clusters"): residents sign in, hold wallets and ask for their children to leave the estate,
-- estates send bills, and payments move money from the wallet of a resident to the wallet of the
-- estate. Staff members of an estate work in shifts and on tasks.
--
-- Base, with Base/Int, Base/Lists, Base/Texts and Base/Keywords, has the shared helpers: Boolean
-- tests on numbers, the integers over the native numbers, search, update and sums over lists, and
-- the comparison and search of texts.
--
-- Accounts
--   Login            accounts/authentication_utils.py: the lock on an account and sign-in
--   Password         accounts/utils.py: the change of a password and its history
--   Reset            accounts/views/auth.py and members/views_password.py: the two ways to reset
--                    a password by a code or a token, both of which call change_password
--
-- Payments
--   Types            the rows of core/common/models/payments/{wallet,transaction,bill}.py
--   Store            the database as a state, an action as a function from a database to a
--                    result or an error with the new database, and the manager's get, save and
--                    create; `atomic` is django.db.transaction.atomic
--   Wallet           the methods of Wallet (wallet.py)
--   Transaction      Wallet.create_pending_transaction and the methods of Transaction
--   ClusterWallet    core/common/includes/cluster_wallet.py: the functions that move money
--   Bill             the computed properties of Bill (bill.py)
--   Billing          the methods of Bill that change rows: acknowledge, dispute, add_payment
--   Bills            core/common/includes/bills.py: process_payment and dispute
--   Creation         core/common/includes/bills.py: create_cluster_wide and create_user_specific
--                    with the notices they send; the members of a cluster are told in chunks
--   Dispute          the methods of BillDispute
--   Webhook          initialize, process_webhook and verify_payment of
--                    core/common/includes/payments.py
--   Failures         core/common/includes/payment_error.py: the category of an error, its recovery
--                    options, the handling of a failure and the retry of a transaction;
--                    Failures/Errors has the row of payment_error.py and its retry
-- The other modules of Payments are lemmas and theorems. process_payment reads the bill and the
-- wallet, checks its guards (payment_amount), looks for a transaction under the same key
-- (or_existing) and settles: it inserts the transaction, calls Bill.add_payment, which debits the
-- payer and calls credit_cluster_from_bill_payment, and completes the transaction.
--
-- Recurring models core/common/models/payments/recurring_payment.py with
-- core/common/includes/recurring_payments.py, process_recurring_payment of
-- core/common/includes/payments.py, and in Recurring/Handling handle_recurring_payment_failure of
-- core/common/includes/payment_error.py.
--
-- Utilities models core/common/includes/utilities.py with
-- core/common/models/payments/utility_provider.py
--   Payment          process_utility_payment: the amount is frozen, a transaction is created, the
--                    provider's service is called and the wallet is debited
--   Setup            setup_recurring_utility_payment and validate_utility_customer
--   Automated        the runs of a recurring payment composed with process_utility_payment
-- The services of the providers are the answers that the file itself makes up for them.
--
-- Shifts models core/common/models/shift/shift.py and shift_swap_request.py, and Shifts/Calls the
-- functions of core/common/includes/shifts.py that change shifts. Every save of a shift runs
-- Shift.clean, which looks for overlapping shifts in the table; the validation of single columns,
-- which the same call of full_clean does, is taken to pass. Shifts/Calendar is get_calendar_shifts
-- of the same file, which expands recurring shifts. Shifts/Attendance is shift_attendance.py.
--
-- Children models core/common/models/child/exit_request.py and entry_exit_log.py, and
-- Children/Register the handlers of management/views_child.py and members/views_child.py and the
-- jobs of core/common/tasks/child.py and exit_request.py: a parent's request is approved, which
-- creates a log, logs are also posted by hand, and the guards mark the exit, the entry or the delay
-- on the log.
--
-- Tasks models core/common/models/task/task.py, and Tasks/Calls the functions of
-- core/common/includes/tasks.py on it, perform_update and update_status of
-- management/views_task.py and the job of core/common/tasks/task.py. As for a shift, every save
-- runs Task.clean.
--
-- Maintenance models core/common/models/maintenance/maintenance.py, the schedule of property.py,
-- and the functions of core/common/includes/maintenance.py that change a log. Emergencies models
-- core/common/models/emergency/emergency.py, core/common/includes/emergencies.py and the actions
-- of management/views_emergency.py and members/views_emergency.py on an alert; Emergencies/Methods
-- has the methods of the row, which the views do not call. Helpdesk models
-- core/common/models/helpdesk/issue.py, the jobs of core/common/includes/helpdesk.py and the
-- actions of management/views_helpdesk.py on a ticket.
--
-- Notifications models core/common/includes/notifications.py: Notifications/Events has the registry
-- of core/notifications/events.py, Notifications/Channels what importing the modules of
-- core/notifications/channels gives, and Notifications/Delivery the task of
-- core/common/tasks/notification.py. The threads of the channels run at the same time, so the order
-- in which they finish is an argument. The other components only record that a notice was sent.
--
-- How code and model correspond. A table is a list of rows with distinct identifiers, an object
-- is looked up by its identifier, and save replaces the row. An instance that the code holds over
-- several calls is read again from the table, which is the same where each instance was just read
-- and saved. An amount of money is an integer number of cents, since the columns have two decimal
-- places. A call reads the clock once: `now` stands for every timezone.now() in it. Titles,
-- descriptions and log lines carry no decision and are left out. An identifier is a fresh number;
-- a key or a user is a number, and the empty key is 0. An exception is an error value, and which
-- statements a failing call keeps is what `atomic` says.
--
-- Parameters. `Calendar` is the arithmetic of dateutil, `accepts` whether Celery queues a task,
-- and `query` and `members` what Django gives for the recipients of one and for the members of a
-- cluster, `Gateway` has the libraries json and hmac and the settings, the outcome of a utility
-- payment is an argument of Recurring, `Json` has the text that the module json makes of an
-- answer, `Site` has the settings of sign-in, Django's password hashing and signing, and the order
-- of a Python set, and `Python` the attributes of a datetime and the module calendar. What
-- `initialize_payment` of a provider answers is an argument of the retry.
--
-- Fuel. The loop of the calendar is not over a list. It runs on one round for
-- each day that is left to the end of the range, which is enough where a later month has later
-- dates, since every round moves on by a day at least. The chunks of members run on as many rounds
-- as there are members, and each takes one at least. All other recursion is over lists and
-- numbers.
--
-- Not modelled: the HTTP layer beyond the handlers above, serializers and permissions, the generic
-- create, update and removal of single rows beyond those named, tokens, the bodies of the channel
-- classes, reports and summaries, concurrent requests, and the parts of the program other than
-- those above.
pub mod Accounts
pub mod Base
pub mod Children
pub mod Emergencies
pub mod Helpdesk
pub mod Maintenance
pub mod Notifications
pub mod Payments
pub mod Recurring
pub mod Shifts
pub mod Tasks
pub mod Utilities
